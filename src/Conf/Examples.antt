-- ===== src/Conf/Examples.antt =====
-- Runs of conf_get_attr, and the theorem at a concrete configuration.
use witos.Base.{ℕ, ◌≡◌, refl, some, List, [], ◌∷◌, ◌++◌, pos, codes, arith}
use witos.Conf.{
  conf_get_attr, search_attr, read_line, scan_line, c_text, is_attr_string, starts_attr, after_attr,
  after_equals, skip_spaces, skip_quote, value_of, end_spaces, end_quote, copied,
}
use witos.Conf.Lines.{text}
use witos.Conf.Meaning.{Answers, conf_get_attr-Answers}

-- The second line has the name of the attribute inside another name.
abbrev lines : List (List ℕ)
lines =
    codes "magic"
    ∷ codes "old.net.server = 10.0.0.1"
    ∷ (codes "net.server = " ++ b'"' ∷ codes "10.0.0.2" ++ b'"' ∷ [])
    ∷ []

conf_get_attr-Answers_example :
    Answers (codes "net.server") lines (conf_get_attr 0 (text lines) (codes "net.server"))
conf_get_attr-Answers_example = conf_get_attr-Answers 0 lines (codes "net.server") (ground arith)

-- The attribute of the other name is found, and its value is read.
other_name :
    conf_get_attr 0 (text lines) (codes "net.server") ≡ some (pos 0, some (codes "10.0.0.1"))
unfolding conf_get_attr search_attr read_line scan_line c_text is_attr_string starts_attr after_attr
    after_equals skip_spaces skip_quote value_of end_spaces end_quote copied
other_name = refl

-- A closing quote stays in the value.
quote_stays :
    conf_get_attr 0 (text ((codes "ip = " ++ b'"' ∷ codes "1" ++ b'"' ∷ []) ∷ [])) (codes "ip")
    ≡ some (pos 0, some (codes "1" ++ b'"' ∷ []))
unfolding conf_get_attr search_attr read_line scan_line c_text is_attr_string starts_attr after_attr
    after_equals skip_spaces skip_quote value_of end_spaces end_quote copied
quote_stays = refl

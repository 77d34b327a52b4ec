-- ===== src/Topic.antt =====
-- libdaylite/src/topic.hpp and topic.cpp: a topic is its name.
use text.Mathlib.TextEquality.{eq_iff}
use daylite.Prelude.{◌≡◌, ◌≢◌, sym, ◌∙◌, String, Bool, String-discrete, ite, true, false, not}

abbrev pub Topic : Type 0
Topic = String

abbrev pub any : Topic
any = "*"

abbrev pub internal : Topic
internal = "!"

-- operator == and operator != of `topic`
unfoldable pub topic_eq : Topic → Topic → Bool
unfolding String-discrete
topic_eq a b = ite (String-discrete a b) true false

unfoldable pub topic_ne : Topic → Topic → Bool
unfolding topic_eq
topic_ne a b = not (topic_eq a b)

pub internal-any : internal ≢ any
internal-any e = cc ((eq_iff internal any).1 e)

pub not_any : {t : Topic} → t ≡ internal → t ≢ any
not_any e f = internal-any (sym e ∙ f)

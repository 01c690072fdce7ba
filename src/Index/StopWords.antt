-- ===== src/Index/StopWords.antt =====
-- infomesh/index/distributed.py, `_STOP_WORDS`.
use infomesh.Prelude.{List, [], ◌∷◌, Text, bytes}

unfoldable pub stop_words : List Text
stop_words =
    bytes "a"
    ∷ bytes "an"
    ∷ bytes "the"
    ∷ bytes "and"
    ∷ bytes "or"
    ∷ bytes "but"
    ∷ bytes "in"
    ∷ bytes "on"
    ∷ bytes "at"
    ∷ bytes "to"
    ∷ bytes "for"
    ∷ bytes "of"
    ∷ bytes "is"
    ∷ bytes "it"
    ∷ bytes "be"
    ∷ bytes "as"
    ∷ bytes "do"
    ∷ bytes "by"
    ∷ bytes "he"
    ∷ bytes "we"
    ∷ bytes "so"
    ∷ bytes "if"
    ∷ bytes "no"
    ∷ bytes "up"
    ∷ bytes "my"
    ∷ bytes "me"
    ∷ bytes "am"
    ∷ bytes "us"
    ∷ bytes "are"
    ∷ bytes "was"
    ∷ bytes "has"
    ∷ bytes "had"
    ∷ bytes "not"
    ∷ bytes "all"
    ∷ bytes "can"
    ∷ bytes "her"
    ∷ bytes "his"
    ∷ bytes "its"
    ∷ bytes "our"
    ∷ bytes "you"
    ∷ bytes "who"
    ∷ bytes "how"
    ∷ bytes "did"
    ∷ bytes "get"
    ∷ bytes "may"
    ∷ bytes "new"
    ∷ bytes "now"
    ∷ bytes "old"
    ∷ bytes "see"
    ∷ bytes "way"
    ∷ bytes "from"
    ∷ bytes "with"
    ∷ bytes "this"
    ∷ bytes "that"
    ∷ bytes "have"
    ∷ bytes "will"
    ∷ bytes "been"
    ∷ bytes "each"
    ∷ bytes "make"
    ∷ bytes "like"
    ∷ bytes "than"
    ∷ bytes "them"
    ∷ bytes "then"
    ∷ bytes "into"
    ∷ bytes "over"
    ∷ bytes "such"
    ∷ bytes "when"
    ∷ bytes "very"
    ∷ bytes "what"
    ∷ bytes "just"
    ∷ bytes "also"
    ∷ bytes "more"
    ∷ bytes "some"
    ∷ bytes "only"
    ∷ bytes "come"
    ∷ bytes "could"
    ∷ bytes "would"
    ∷ bytes "about"
    ∷ bytes "which"
    ∷ bytes "their"
    ∷ bytes "there"
    ∷ bytes "these"
    ∷ bytes "those"
    ∷ bytes "other"
    ∷ bytes "after"
    ∷ bytes "being"
    ∷ bytes "where"
    ∷ bytes "does"
    ∷ []

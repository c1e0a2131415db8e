-- ===== src/Names/Tests.antt =====
-- Names with tags, cleaned.
use swat4stats.Base.{ℕ, ◌≡◌, refl, Bool, none, ◌||◌, ◌&&◌, leb, ◌==◌}
use swat4stats.Base.Text.{codes}
use swat4stats.Names.{
  short_tag, long_tag, tag_at, starts_with, strip, remove, find_tag, drop_tags, force_clean_name,
}
use swat4stats.Names.Clean.{find_tag-force_clean_name, force_clean_name_idem}

-- the word characters of ASCII
abbrev is_word : ℕ → Bool
is_word c =
    leb b'0' c && leb c b'9' || leb b'A' c && leb c b'Z' || leb b'a' c && leb c b'z' || c == b'_'

clean_examples :
    (force_clean_name is_word (codes " [b][c=ff00ff]Serge[\\c] ") ≡ codes "Serge")
    × (force_clean_name is_word (codes "[[c=ffffff]b]x") ≡ codes "x")
    × (force_clean_name is_word (codes "[cx]y") ≡ codes "[cx]y")
unfolding force_clean_name drop_tags find_tag tag_at short_tag long_tag remove starts_with strip
clean_examples = (refl, refl, refl)

find_tag-force_clean_name_example :
    find_tag is_word (force_clean_name is_word (codes "[[u]c=1]a")) ≡ none
find_tag-force_clean_name_example = find_tag-force_clean_name is_word (codes "[[u]c=1]a")

force_clean_name_idem_example :
    force_clean_name is_word (force_clean_name is_word (codes "[[u]c=1] a"))
    ≡ force_clean_name is_word (codes "[[u]c=1] a")
force_clean_name_idem_example = force_clean_name_idem is_word (codes "[[u]c=1] a")

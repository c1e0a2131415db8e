-- ===== src/Profiles/Popular.antt =====
-- `is_name_popular` and the patterns of `TRACKER_POPULAR_NAMES` (swat4stats/settings.py).
use swat4stats.Base.{
  ℕ, ◌+◌, Bool, true, false, ◌&&◌, ◌||◌, List, [], ◌∷◌, ◌==◌, if◌then◌else◌, ltb, leb, length,
}
use swat4stats.Base.Text.{Text, codes}

-- How `re.IGNORECASE` compares: the small letter of a capital, and the four other characters that
-- it takes for one of a to z.
abbrev pub fold : ℕ → ℕ
fold c =
    if leb 65 c && leb c 90
    then 32 + c
    else if c == 304 || c == 305
    then 105
    else if c == 383
    then 115
    else if c == 8490
    then 107
    else c

-- `^word`
unfoldable pub starts : Text → Text → Bool
starts [] s = true
starts (c ∷ w) [] = false
starts (c ∷ w) (d ∷ s) = c == fold d && starts w s

-- `^word$`, where `$` also stands before a line break that ends the name
unfoldable pub is_word : Text → Text → Bool
is_word [] [] = true
is_word [] (d ∷ []) = d == 10
is_word [] (d ∷ e ∷ s) = false
is_word (c ∷ w) [] = false
is_word (c ∷ w) (d ∷ s) = c == fold d && is_word w s

abbrev pub name_starts : List Text
name_starts =
    codes "todosetname"
    ∷ codes "player"
    ∷ codes "newname"
    ∷ codes "afk"
    ∷ codes "giocatore"
    ∷ codes "jogador"
    ∷ codes "jugador"
    ∷ codes "joueur"
    ∷ codes "spieler"
    ∷ codes "gracz"
    ∷ codes "test"
    ∷ []

abbrev pub name_words : List Text
name_words =
    codes "||"
    ∷ codes "lol"
    ∷ codes "swat"
    ∷ codes "swat4"
    ∷ codes "suspect"
    ∷ codes "noob"
    ∷ codes "n00b"
    ∷ codes "vip"
    ∷ codes "xxx"
    ∷ codes "killer"
    ∷ codes "david"
    ∷ codes "pokemon"
    ∷ codes "rambo"
    ∷ codes "ghost"
    ∷ codes "hitman"
    ∷ codes "wolf"
    ∷ codes "sniper"
    ∷ []

-- `any(… for pattern in …)`
unfoldable pub any_text : (Text → Bool) → List Text → Bool
any_text p [] = false
any_text p (w ∷ ws) = p w || any_text p ws

-- `TRACKER_MIN_NAME_LEN`
abbrev pub min_name_len : ℕ
min_name_len = 3

unfoldable pub is_name_popular : Text → Bool
is_name_popular name =
    ltb (length name) min_name_len
    || any_text (λ w. starts w name) name_starts
    || any_text (λ w. is_word w name) name_words

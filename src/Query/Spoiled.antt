-- ===== src/Query/Spoiled.antt =====
-- What a key named as the players does to a payload.
use swat4stats.Base.{
  ◌≡◌, refl, sym, Bool, true, List, [], ◌∷◌, ◌++◌, inl, inr, Bool-cases, Option-cases,
}
use mathlib.Core.Path.{subst}
use swat4stats.Base.Table.{exists}
use swat4stats.Base.Text.{Text, codes, text_eq, eq_of_text_eq}
use swat4stats.Query.{parse_status_payload}
use swat4stats.Query.Payload.{after}
use swat4stats.Query.Expand.{
  rows, plain, Result, Outcome, ok, attribute_error, value_error, sort_entry, sort_players,
  obj_match, player_match, last_underscore, cut_break, add_objective, add_player, set_param,
  expand_param, expand_params, expand_status_payload, empty_result, ServerInfo,
}

-- The players are a text, or the call has failed on a text.
abbrev IsSpoiled : Outcome Result → Type 0
IsSpoiled (ok r) = (t : Text) × (r.players ≡ plain t)
IsSpoiled attribute_error = Unit
IsSpoiled value_error = ⊥

add_objective-IsSpoiled :
    (name value t : Text) (r : Result)
    → r.players ≡ plain t
    → IsSpoiled (add_objective name value r)
unfolding add_objective
add_objective-IsSpoiled name value t r e =
    elim r.objectives
      as (λ o. IsSpoiled (elim o [
        | rows os ↦ ok (record r { objectives = rows (os ++ (name, value) ∷ []) })
        | plain t ↦ attribute_error
      ])) [ rows os ↦ (t, e) | plain u ↦ tt ]

add_player-IsSpoiled :
    (id name value t : Text) (r : Result)
    → r.players ≡ plain t
    → IsSpoiled (add_player id name value r)
unfolding add_player
add_player-IsSpoiled id name value t r e = rw e tt

set_param-IsSpoiled :
    (param value t : Text) (r : Result)
    → r.players ≡ plain t
    → IsSpoiled (ok (set_param param value r))
unfolding set_param
set_param-IsSpoiled param value t r e = elim (Bool-cases (text_eq param (codes "players"))) [
  | inl p ↦ rw p (value, refl)
  | inr p ↦ elim (Bool-cases (text_eq param (codes "objectives"))) [
    | inl q ↦ rw (p, q) (t, e)
    | inr q ↦ rw (p, q) (t, e)
  ]
]

expand_param-IsSpoiled :
    (param value t : Text) (r : Result)
    → r.players ≡ plain t
    → IsSpoiled (expand_param (param, value) r)
unfolding expand_param obj_match after
expand_param-IsSpoiled param value t r e = elim (Option-cases (obj_match param)) [
  | inr (name, o) ↦ rw o (add_objective-IsSpoiled name value t r e)
  | inl n ↦ elim (Option-cases (player_match param)) [
    | inr ((name, id), p) ↦ rw (n, p) (add_player-IsSpoiled id name value t r e)
    | inl p ↦ rw (n, p) (set_param-IsSpoiled param value t r e)
  ]
]

next_params : List (Text × Text) → Outcome Result → Outcome Result
next_params ps (ok r) = expand_params ps r
next_params ps attribute_error = attribute_error
next_params ps value_error = value_error

expand_params-next :
    (p : Text × Text) (ps : List (Text × Text)) (r : Result)
    → expand_params (p ∷ ps) r ≡ next_params ps (expand_param p r)
unfolding expand_params next_params
expand_params-next p ps r =
    elim (expand_param p r)
      as (λ o.
        elim o [
          | ok r' ↦ expand_params ps r'
          | attribute_error ↦ attribute_error
          | value_error ↦ value_error
        ]
        ≡ next_params ps o) [ ok r' ↦ refl | attribute_error ↦ refl | value_error ↦ refl ]

next-fails :
    (ps : List (Text × Text)) (o : Outcome Result)
    → IsSpoiled o
    → sort_players (next_params ps o) ≡ attribute_error
unfolding next_params sort_players expand_params sort_entry
next-fails ps attribute_error h = refl
next-fails ps value_error h = absurd h
next-fails [] (ok r) h = rw h.1 refl
next-fails ((param, value) ∷ ps) (ok r) h =
    rw (expand_params-next (param, value) ps r)
      (next-fails ps (expand_param (param, value) r) (expand_param-IsSpoiled param value h.0 r h.1))

-- An exception.
abbrev pub HasFailed : Outcome ServerInfo → Type 0
HasFailed (ok info) = ⊥
HasFailed attribute_error = Unit
HasFailed value_error = Unit

abbrev pub names_players : Text × Text → Bool
names_players (param, value) = text_eq param (codes "players")

players_param-IsSpoiled :
    (param value : Text) (r : Result)
    → text_eq param (codes "players") ≡ true
    → IsSpoiled (expand_param (param, value) r)
unfolding expand_param obj_match after player_match last_underscore cut_break set_param
players_param-IsSpoiled param value r e =
    subst (λ p. IsSpoiled (expand_param (p, value) r))
      (sym (eq_of_text_eq param (codes "players") e)) (value, refl)

fails_later :
    (ps : List (Text × Text)) (o : Outcome Result)
    → ((r : Result) → HasFailed (sort_players (expand_params ps r)))
    → HasFailed (sort_players (next_params ps o))
unfolding next_params sort_players
fails_later ps (ok r) h = h r
fails_later ps attribute_error h = tt
fails_later ps value_error h = tt

params-HasFailed :
    (ps : List (Text × Text)) (r : Result)
    → exists names_players ps ≡ true
    → HasFailed (sort_players (expand_params ps r))
unfolding next_params sort_players
params-HasFailed [] r h = cc
params-HasFailed ((param, value) ∷ ps) r h =
    rw (expand_params-next (param, value) ps r)
      (elim (Bool-cases (text_eq param (codes "players"))) [
        | inl e ↦
            rw
              (next-fails ps (expand_param (param, value) r)
                (players_param-IsSpoiled param value r e))
              tt
        | inr e ↦
            fails_later ps (expand_param (param, value) r)
              (λ r'. params-HasFailed ps r' (rw e at h))
      ])

-- A payload with a key named `players` is never expanded: the value takes the place of the players
-- that the code collects and sorts, so the call fails.
pub players_key-HasFailed :
    (raw : Text)
    → exists names_players (parse_status_payload raw) ≡ true
    → HasFailed (expand_status_payload raw)
unfolding expand_status_payload
players_key-HasFailed raw h = params-HasFailed (parse_status_payload raw) empty_result h

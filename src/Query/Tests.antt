-- ===== src/Query/Tests.antt =====
-- A status in two packets that arrive in either order.
use swat4stats.Base.{◌≡◌, refl, true, List, [], ◌∷◌, ◌++◌, arith, All}
use swat4stats.Base.Int.{◌+ℤ◌}
use swat4stats.Base.Sort.{sorted}
use swat4stats.Base.Text.{Text, codes}
use swat4stats.Base.Table.{exists}
use swat4stats.Names.{strip, lstrip, rstrip, rstrip_head, is_space}
use swat4stats.Query.{split, pairs, parse_status_payload}
use swat4stats.Query.Number.{next_digit, digits, unsigned, signed, parse_int}
use swat4stats.Query.Payload.{
  after, span_digits, until_eof, eof, replacement, normalized, normalize_status_packet,
}
use swat4stats.Query.Collect.{
  payload, order_of, read_param, read_params, put, join, finish, place, collect,
  collect_status_payload,
}
use swat4stats.Query.Expand.{
  rows, ok, set_item, cut_break, obj_match, all_digits, last_underscore, player_match, set_player,
  set_param, add_objective, add_player, expand_param, expand_params, empty_result, get_item,
  player_number, numbered, sort_numbered, sort_entry, sort_players, expand_status_payload,
}
use swat4stats.Query.Render.{
  render, IsPlainPair, parse_status_payload-render, prefix, normalize_status_packet-frame,
}
use swat4stats.Query.Order.{IsExpanded, expand_status_payload-IsExpanded}
use swat4stats.Query.Arrival.{AreApart, read, swap, collect_status_payload-Reordered}
use swat4stats.Query.Spoiled.{HasFailed, names_players, players_key-HasFailed}

abbrev first_packet : Text
first_packet = codes "\\statusresponse\\0\\hostname\\Swat\\player_1\\Bob\\eof\\"

abbrev second_packet : Text
second_packet = codes "\\statusresponse\\1\\player_0\\Ann\\obj_A\\0\\final\\\\eof\\"

abbrev whole : Text
whole = codes "\\hostname\\Swat\\player_1\\Bob\\player_0\\Ann\\obj_A\\0\\final\\"

in_order : collect_status_payload (first_packet ∷ second_packet ∷ []) ≡ payload whole
unfolding split pairs parse_status_payload next_digit digits unsigned signed parse_int after
    span_digits until_eof replacement normalized normalize_status_packet order_of read_param
    read_params put join finish place collect collect_status_payload sorted strip lstrip rstrip
    rstrip_head is_space ◌+ℤ◌
in_order = refl

out_of_order : collect_status_payload (second_packet ∷ first_packet ∷ []) ≡ payload whole
unfolding split pairs parse_status_payload next_digit digits unsigned signed parse_int after
    span_digits until_eof replacement normalized normalize_status_packet order_of read_param
    read_params put join finish place collect collect_status_payload sorted strip lstrip rstrip
    rstrip_head is_space ◌+ℤ◌
out_of_order = refl

expanded_whole :
    expand_status_payload whole
    ≡ ok record {
      players =
          ((codes "id", codes "0") ∷ (codes "player", codes "Ann") ∷ [])
          ∷ ((codes "id", codes "1") ∷ (codes "player", codes "Bob") ∷ [])
          ∷ [];
      objectives = rows ((codes "A", codes "0") ∷ []);
      params = (codes "hostname", codes "Swat") ∷ (codes "final", []) ∷ [];
    }
unfolding split pairs parse_status_payload next_digit digits unsigned signed parse_int after
    set_item cut_break obj_match all_digits last_underscore player_match set_player set_param
    add_objective add_player expand_param expand_params get_item player_number numbered
    sort_numbered sort_entry sort_players expand_status_payload sorted strip lstrip rstrip
    rstrip_head is_space
expanded_whole = refl

abbrev status : List (Text × Text)
status = (codes "hostname", codes "Swat") ∷ (codes "gamever", codes "1.1") ∷ []

status-IsPlain : All IsPlainPair status
status-IsPlain = ground arith

parse_status_payload-render_example : parse_status_payload (render status) ≡ status
parse_status_payload-render_example = parse_status_payload-render status status-IsPlain

normalize_status_packet-frame_example :
    normalize_status_packet (prefix ++ (codes "12" ++ (codes "\\hostname\\Swat" ++ eof)))
    ≡ codes "\\hostname\\Swat"
normalize_status_packet-frame_example =
    normalize_status_packet-frame b'1' (codes "2") b'\\' (codes "hostname\\Swat") (ground arith)
      refl (ground arith)

expand_status_payload-IsExpanded_example :
    IsExpanded
      (expand_params (parse_status_payload whole) empty_result)
      (expand_status_payload whole)
expand_status_payload-IsExpanded_example = expand_status_payload-IsExpanded whole

players_is_key : exists names_players (parse_status_payload (codes "\\players\\0")) ≡ true
unfolding split pairs parse_status_payload
players_is_key = refl

players_key-HasFailed_example : HasFailed (expand_status_payload (codes "\\players\\0"))
players_key-HasFailed_example = players_key-HasFailed (codes "\\players\\0") players_is_key

packets-AreApart : AreApart (read first_packet) (read second_packet)
unfolding split pairs parse_status_payload next_digit digits unsigned signed parse_int order_of
    read_param read_params strip lstrip rstrip rstrip_head is_space ◌+ℤ◌
packets-AreApart = (refl, refl)

collect_status_payload-Reordered_example :
    collect_status_payload (first_packet ∷ second_packet ∷ [])
    ≡ collect_status_payload (second_packet ∷ first_packet ∷ [])
collect_status_payload-Reordered_example =
    collect_status_payload-Reordered (first_packet ∷ second_packet ∷ [])
      (second_packet ∷ first_packet ∷ []) (swap first_packet second_packet [] packets-AreApart)

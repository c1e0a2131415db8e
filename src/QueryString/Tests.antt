-- ===== src/QueryString/Tests.antt =====
-- Query strings parsed and expanded.
use swat4stats.Base.{◌≡◌, refl, some, [], ◌∷◌, ◌==◌, if◌then◌else◌, map, inr, arith}
use swat4stats.Base.Text.{Text, codes}
use swat4stats.Names.{strip, lstrip, rstrip, rstrip_head, is_space}
use swat4stats.QueryString.{text, seq, dict, nil, cons, Items, end, item, parse_querystring, parse}
use swat4stats.QueryString.Complex.{set_complex_key_item, expand_dots}
use swat4stats.QueryString.Arrays.{expand_array}
use swat4stats.QueryString.Render.{parse_querystring-render}
use swat4stats.QueryString.Paths.{get_path, left, set_complex_key_item-paths}

-- Spaces and plus signs, the part of the quoting that these texts need.
abbrev unquote : Text → Text
unquote = map (λ c. if c == b'+' then b' ' else c)

abbrev quote : Text → Text
quote = map (λ c. if c == b' ' then b'+' else c)

parsed :
    parse unquote (codes "&foo=a+b&bar=x&foo=c&=y&")
    ≡ item
        (codes "foo")
        (seq (cons (text (codes "a b")) (cons (text (codes "c")) nil)))
        (item (codes "bar") (text (codes "x")) (item (codes "y") (text []) end))
unfolding parse
parsed = refl

-- The keys of a report of the dotted kind.
dotted :
    expand_dots (parse unquote (codes "foo.bar.baz=ham&foo.bar.spam=eggs&foo.bar.spam=42"))
    ≡ item
        (codes "foo")
        (dict (
          item
            (codes "bar")
            (dict (
              item (codes "baz") (text (codes "ham")) (
                item
                  (codes "spam")
                  (seq (cons (text (codes "eggs")) (cons (text (codes "42")) nil)))
                  end)))
            end))
        end
unfolding expand_dots parse strip lstrip rstrip rstrip_head is_space
dotted = refl

arrays :
    expand_array (parse unquote (codes "0[a][]=1&0[a][]=2&x[=3"))
    ≡ item
        (codes "0")
        (dict (item (codes "a") (seq (cons (text (codes "1")) (cons (text (codes "2")) nil))) end))
        end
unfolding expand_array parse set_complex_key_item
arrays = refl

parse_querystring-render_example :
    parse_querystring unquote (codes "a+key=some+value&b=")
    ≡ (codes "a key", codes "some value") ∷ (codes "b", []) ∷ []
parse_querystring-render_example =
    parse_querystring-render unquote quote refl (codes "a key", codes "some value")
      ((codes "b", []) ∷ [])
      (
        (
          cc,
          record { undone = refl; no_and = ground arith; no_equals = ground arith },
          record { undone = refl; no_and = ground arith; no_equals = ground arith },
        ),
        (
          (
            cc,
            record { undone = refl; no_and = ground arith; no_equals = ground arith },
            record { undone = refl; no_and = tt; no_equals = tt },
          ),
          tt,
        ),
      )

abbrev nested : Items
nested = item (codes "a") (dict (item (codes "b") (text (codes "1")) end)) end

set_complex_key_item-paths_example :
    (get_path
        (codes "a" ∷ [])
        (codes "b")
        (set_complex_key_item (codes "a" ∷ []) (codes "b") (text (codes "2")) nested)
      ≡ some (left (get_path (codes "a" ∷ []) (codes "b") nested) (text (codes "2"))))
    × (get_path
          (codes "a" ∷ [])
          (codes "c")
          (set_complex_key_item (codes "a" ∷ []) (codes "b") (text (codes "2")) nested)
        ≡ get_path (codes "a" ∷ []) (codes "c") nested)
set_complex_key_item-paths_example =
    set_complex_key_item-paths (codes "a" ∷ []) (codes "b") (codes "a" ∷ []) (codes "c")
      (text (codes "2")) nested (inr refl)

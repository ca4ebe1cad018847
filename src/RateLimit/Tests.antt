-- ===== src/RateLimit/Tests.antt =====
-- A limiter of two calls in 100 ns, and of two keys.
use qweqwe.Base.{◌≡◌, ◌≤◌, refl, List, [], ◌∷◌, arith, length}
use qweqwe.RateLimit.Limiter.{
  Config, Request, invalid_config, get_entry, set_entry, is_idle, prune, allow_known, allow_new,
  allow, entries_after, admissions,
}
use qweqwe.RateLimit.Memory.{entries_after-length}
use qweqwe.RateLimit.Bounds.{admissions_bound, admissions_first_window}

abbrev pair : Config
pair = record { limit = 2; window = 100; idle_ttl = 100; max_entries = 2 }

abbrev calls : List Request
calls =
    record { at = 150; key = 7 }
    ∷ record { at = 160; key = 7 }
    ∷ record { at = 170; key = 7 }
    ∷ record { at = 180; key = 8 }
    ∷ record { at = 249; key = 9 }
    ∷ []

abbrev earlier : List Request
earlier = record { at = 50; key = 7 } ∷ []

-- The third call of the key and the third key are refused.
calls_admitted : admissions pair 7 calls [] ≡ 2
unfolding admissions allow allow_known allow_new get_entry set_entry prune is_idle
calls_admitted = refl

entries_after-length_example : length (entries_after pair calls []) ≤ 2
entries_after-length_example = entries_after-length pair calls [] (omega arith)

admissions_bound_example : admissions pair 7 calls (entries_after pair earlier []) ≤ 4
unfolding invalid_config
admissions_bound_example =
    admissions_bound pair 150 7 earlier calls refl (ground arith) (ground arith)

admissions_first_window_example : admissions pair 7 calls [] ≤ 2
unfolding invalid_config
admissions_first_window_example = admissions_first_window pair 150 7 calls refl (ground arith)

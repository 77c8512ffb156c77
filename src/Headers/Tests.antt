-- ===== src/Headers/Tests.antt =====
-- The theorems on the headers at concrete inputs.
use pulsegate.Base.{◌≡◌, [], ◌∷◌, codes, trim, segments, any_of, if◌then◌else◌}
use pulsegate.Headers.{Headers, set, values, contains_token, equals_ignore_case}
use pulsegate.Headers.Lookup.{same_name, values-set}
use pulsegate.Headers.Tokens.{contains_token-segments}

abbrev two_entries : Headers
two_entries =
    record { name = codes "host"; value = codes "a" }
    ∷ record { name = codes "age"; value = codes "1" }
    ∷ []

values-set_example : values (codes "HOST") (set (codes "Host") (codes "b") two_entries) ≡ (
    if same_name (codes "Host") (codes "HOST")
    then codes "b" ∷ []
    else values (codes "HOST") two_entries)
values-set_example = values-set (codes "HOST") (codes "Host") (codes "b") two_entries

contains_token-segments_example :
    contains_token (codes "keep-alive, Close") (codes "close")
    ≡ any_of
        (λ part. equals_ignore_case (trim part) (codes "close"))
        (segments 44 (codes "keep-alive, Close"))
contains_token-segments_example =
    contains_token-segments (codes "keep-alive, Close") (codes "close")

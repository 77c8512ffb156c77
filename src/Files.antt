-- ===== src/Files.antt =====
-- src/http/file_service.cpp: the parts that touch no file, the slots of the pool, the decoding of a path and
-- the type of a file. What `std::filesystem` says of a path is an argument.
use pulsegate.Base.{
  ℕ, ◌+◌, ◌-◌, ◌*◌, ◌%◌, ◌^◌, Bool, true, false, not, ◌&&◌, ◌||◌, Option, none, some, List, [], ◌∷◌,
  map, Bytes, codes, bytes_eq, any_of, to_lower, ltb, leb, ◌==◌, if◌then◌else◌,
}

pub data FileStatus : Type 0 where
  ok_ not_found forbidden too_large busy internal_error : FileStatus

pub record FileResult : Type 0 where
  pub status : FileStatus
  pub path : Bytes
  pub body : Bytes

unfoldable pub failure : FileStatus → FileResult
failure status = record { status = status; path = []; body = [] }

-- What the calls of `std::filesystem` and of the stream return, in the order of their use; `none` is an error,
-- and `is_below` is the test on the root.
pub record Probe : Type 0 where
  pub candidate : Option Bytes
  pub is_below : Bool
  pub file_exists : Option Bool
  pub is_regular : Bool
  pub file_size : Option ℕ
  pub content : Option Bytes

-- `std::none_of` over the components of the relative path, where there is one that is neither empty nor
-- absolute.
unfoldable pub stays_below : Option (List Bytes) → Bool → Bool
stays_below none is_absolute = false
stays_below (some []) is_absolute = false
stays_below (some (c ∷ cs)) is_absolute =
    not is_absolute && not (any_of (λ part. bytes_eq part (codes "..")) (c ∷ cs))

unfoldable pub read_content : Bytes → Option Bytes → FileResult
unfolding failure
read_content path none = failure internal_error
read_content path (some body) = record { status = ok_; path = path; body = body }

unfoldable pub check_size : Bytes → ℕ → Option ℕ → Option Bytes → FileResult
unfolding read_content
check_size path maximum_bytes none content = failure internal_error
check_size path maximum_bytes (some size) content =
    if ltb maximum_bytes size then failure too_large else read_content path content

unfoldable pub check_regular : Bytes → ℕ → Option Bool → Probe → FileResult
unfolding check_size
check_regular path maximum_bytes none probe = failure not_found
check_regular path maximum_bytes (some false) probe = failure not_found
check_regular path maximum_bytes (some true) probe =
    if probe.is_regular
    then check_size path maximum_bytes probe.file_size probe.content
    else failure forbidden

unfoldable pub read_candidate : ℕ → Option Bytes → Probe → FileResult
unfolding check_regular
read_candidate maximum_bytes none probe = failure not_found
read_candidate maximum_bytes (some path) probe =
    if probe.is_below
    then check_regular path maximum_bytes probe.file_exists probe
    else failure forbidden

unfoldable pub read_in_worker : ℕ → Probe → FileResult
unfolding read_candidate
read_in_worker maximum_bytes probe = read_candidate maximum_bytes probe.candidate probe

-- The count of the reads that wait or run, with its limit.
unfoldable pub try_acquire_slot : ℕ → ℕ → Bool × ℕ
try_acquire_slot queue_capacity pending =
    if ltb pending queue_capacity then (true, pending + 1) else (false, pending)

unfoldable pub release_slot : ℕ → ℕ
release_slot pending = (pending + 2 ^ 64 - 1) % 2 ^ 64

-- `none` is -1.
unfoldable pub hex_value : ℕ → Option ℕ
hex_value c =
    if leb 48 c && leb c 57
    then some (c - 48)
    else if leb 97 c && leb c 102
    then some (c - 97 + 10)
    else if leb 65 c && leb c 70
    then some (c - 65 + 10)
    else none

-- The byte of two digits, where both are.
abbrev pub joined : Option ℕ → Option ℕ → Option ℕ
joined (some high) (some low) = some (high * 16 + low)
joined (some high) none = none
joined none low = none

-- A character of the decoded text, in front of the rest.
abbrev pub decoded : Option ℕ → Option Bytes → Option Bytes
decoded none rest = none
decoded (some c) none = none
decoded (some c) (some rest) = if c == 0 || c == 92 then none else some (c ∷ rest)

unfoldable pub percent_decode_path : Bytes → Option Bytes
unfolding hex_value
percent_decode_path [] = some []
percent_decode_path (x ∷ []) = if x == 37 then none else decoded (some x) (some [])
percent_decode_path (x ∷ (y ∷ [])) =
    let rest = percent_decode_path (y ∷ []) in if x == 37 then none else decoded (some x) rest
percent_decode_path (x ∷ (y ∷ (z ∷ zs))) =
    let plain = percent_decode_path (y ∷ (z ∷ zs)) in
    let escaped = percent_decode_path zs in
    if x == 37 then decoded (joined (hex_value y) (hex_value z)) escaped else decoded (some x) plain

-- The type by the extension of the path.
unfoldable pub mime_type_for_extension : Bytes → Bytes
mime_type_for_extension given =
    let extension = map to_lower given in
    if bytes_eq extension (codes ".html") || bytes_eq extension (codes ".htm")
    then codes "text/html; charset=utf-8"
    else if bytes_eq extension (codes ".css")
    then codes "text/css; charset=utf-8"
    else if bytes_eq extension (codes ".js")
    then codes "application/javascript"
    else if bytes_eq extension (codes ".json")
    then codes "application/json"
    else if bytes_eq extension (codes ".txt")
    then codes "text/plain; charset=utf-8"
    else if bytes_eq extension (codes ".png")
    then codes "image/png"
    else if bytes_eq extension (codes ".jpg") || bytes_eq extension (codes ".jpeg")
    then codes "image/jpeg"
    else codes "application/octet-stream"

-- ===== src/Uploads/Headers.antt =====
-- What the two middlewares read of a request: its headers, its path and the account that it names.
use data_analytics_platform.Base.{
  ℕ, List, [], ◌∷◌, ◌++◌, length, map, filter, String, Bool, true, not, ◌&&◌, ◌||◌, Option, none,
  some, ◌==◌, str_eq, if◌then◌else◌, leb, ltb, Bytes, codes, bytes_eq, is_nil, all_codes, lower,
  strip, rstrip, split_on, is_digits, decimal, starts_with, drop, has_code, take,
}

pub record Header : Type 0 where
  pub name : Bytes
  pub value : Bytes

pub record Scope : Type 0 where
  pub type : String
  pub method : String
  pub path : Bytes
  pub headers : List Header

unfoldable pub header_values : Bytes → List Header → List Bytes
unfolding lower
header_values name hs = map (λ h. h.value) (filter (λ h. bytes_eq (lower h.name) name) hs)

-- Any byte decodes as Latin-1.
abbrev pub only_value : List Bytes → Option Bytes
only_value (v ∷ []) = some (strip v)
only_value _ = none

unfoldable pub single_header : Bytes → List Header → Option Bytes
unfolding header_values strip
single_header name hs = only_value (header_values name hs)

pub data ContentLength : Type 0 where
  absent invalid : ContentLength
  declared : ℕ → ContentLength

unfoldable pub all_parts : List Bytes → List Bytes
unfolding split_on strip
all_parts [] = []
all_parts (v ∷ vs) = map strip (split_on b',' v) ++ all_parts vs

abbrev pub all_ascii : List Bytes → Bool
all_ascii [] = true
all_ascii (v ∷ vs) = all_codes (λ c. ltb c 128) v && all_ascii vs

-- `int` refuses texts of more than 4300 digits.
abbrev pub is_number : Bytes → Bool
is_number p = is_digits p && leb (length p) 4300

abbrev pub all_numbers : List Bytes → Bool
all_numbers [] = true
all_numbers (p ∷ ps) = is_number p && all_numbers ps

-- Whether a set of the parts' numbers has no other member.
abbrev pub all_equal : ℕ → List Bytes → Bool
all_equal n [] = true
all_equal n (p ∷ ps) = (decimal 0 p == n) && all_equal n ps

abbrev pub length_of : List Bytes → ContentLength
length_of [] = invalid
length_of (p ∷ ps) =
    if not (all_numbers (p ∷ ps))
    then invalid
    else if all_equal (decimal 0 p) ps
    then declared (decimal 0 p)
    else invalid

abbrev pub length_in : List Bytes → ContentLength
length_in [] = absent
length_in (v ∷ vs) = if all_ascii (v ∷ vs) then length_of (all_parts (v ∷ vs)) else invalid

unfoldable pub declared_content_length : List Header → ContentLength
unfolding header_values all_parts decimal
declared_content_length hs = length_in (header_values (codes "content-length") hs)

abbrev pub upload_path_prefix : Bytes
upload_path_prefix = codes "/api/v1/datasets/project/"

abbrev pub is_slash : ℕ → Bool
is_slash c = c == b'/'

abbrev pub is_project : Bytes → Bool
is_project suffix = not (is_nil suffix) && not (has_code b'/' suffix)

unfoldable pub matches_upload_endpoint : Scope → Bool
unfolding starts_with drop rstrip
matches_upload_endpoint s =
    str_eq s.type "http"
    && (str_eq s.method "POST"
        && (starts_with upload_path_prefix s.path
            && is_project (rstrip is_slash (drop (length upload_path_prefix) s.path))))

abbrev pub is_body_method : String → Bool
is_body_method m = str_eq m "POST" || (str_eq m "PUT" || (str_eq m "PATCH" || str_eq m "DELETE"))

-- The claims of a token that `jwt.decode` accepts. `subject` is `int(payload["sub"])`, where there is
-- one and it converts; an id that is not positive stands as zero.
pub record Claims : Type 0 where
  pub token_type : Option String
  pub subject : Option ℕ

-- `text.partition(c)`: what comes before the first `c`, and what follows it where there is one.
unfoldable pub before : ℕ → Bytes → Bytes
before c [] = []
before c (x ∷ xs) = if x == c then [] else x ∷ before c xs

unfoldable pub after : ℕ → Bytes → Option Bytes
after c [] = none
after c (x ∷ xs) = if x == c then some xs else after c xs

abbrev pub is_access : Option String → Bool
is_access none = true
is_access (some t) = str_eq t "access"

abbrev pub positive : Option ℕ → Option ℕ
positive none = none
positive (some n) = if n == 0 then none else some n

abbrev pub subject_of : Option Claims → Option ℕ
subject_of none = none
subject_of (some c) = if is_access c.token_type then positive c.subject else none

abbrev pub bearer_subject : (Bytes → Option Claims) → Bytes → Option Bytes → Option ℕ
bearer_subject decode scheme none = none
bearer_subject decode scheme (some token) =
    if bytes_eq (lower scheme) (codes "bearer") && not (is_nil token)
    then subject_of (decode token)
    else none

abbrev pub authorized : (Bytes → Option Claims) → Option Bytes → Option ℕ
authorized decode none = none
authorized decode (some a) = bearer_subject decode (before b' ' a) (after b' ' a)

-- `decode` is `jwt.decode` with the application's key.
unfoldable pub access_subject : (Bytes → Option Claims) → List Header → Option ℕ
unfolding single_header before after lower
access_subject decode hs = authorized decode (single_header (codes "authorization") hs)

abbrev pub parsed_task : (Bytes → Option String) → Option Bytes → Option String
parsed_task uuid none = none
parsed_task uuid (some v) = if is_nil v then none else uuid v

-- `uuid` is `str(UUID(value))`, where that does not raise.
unfoldable pub requested_task_id : (Bytes → Option String) → List Header → Option String
unfolding single_header
requested_task_id uuid hs = parsed_task uuid (single_header (codes "x-task-id") hs)

abbrev pub unknown : Bytes
unknown = codes "unknown"

abbrev pub or_unknown : Bytes → Bytes
or_unknown s = if is_nil s then unknown else s

-- The first address that a trusted proxy names, 128 characters of it at most.
abbrev pub forwarded_address : Bool → Option Bytes → Bytes
forwarded_address trusted none = unknown
forwarded_address trusted (some f) =
    if trusted && not (is_nil f) then or_unknown (take 128 (strip (before b',' f))) else unknown

abbrev pub client_address : Bytes → Option Bytes → Bytes
client_address forwarded none = forwarded
client_address forwarded (some host) =
    if bytes_eq forwarded unknown then take 128 host else forwarded

-- `client` is the host of the connection, and `hmac` the keyed digest that the code shortens.
unfoldable pub client_fingerprint : (Bytes → String) → Bool → Option Bytes → List Header → String
unfolding single_header before strip
client_fingerprint hmac trusted client hs =
    hmac (
      client_address (forwarded_address trusted (single_header (codes "x-forwarded-for") hs))
        client)

-- ===== src/Applayer/Http.antt =====
-- crates/applayer/src/http.rs: request heads in a reassembled stream. Bytes are the numbers below
-- 256; counters are natural numbers, which the source holds in 64 bits.
pub mod Head
pub mod Chunks
mod Tests
use cyber_sentinel_ids_ips.Prelude.{
  ℕ, zero, suc, ◌+◌, ◌-◌, min, max, Bool, true, false, ◌&&◌, ◌||◌, not, Option, none, some, List,
  [], ◌∷◌, ◌++◌, length, take, drop, all, ltb, leb, ◌==◌, if◌then◌else◌, ◌>>=◌, map, unwrap_or,
}
use cyber_sentinel_ids_ips.Reassembly.Normalize.{
  NormalizationFlags, NormalizeOptions, Normalized, no_flags, bytes_eq,
}
use cyber_sentinel_ids_ips.Reassembly.Normalize.Collapse.{normalize_path}

abbrev pub default_max_head : ℕ
default_max_head = 65536

abbrev pub max_headers : ℕ
max_headers = 128

pub record HttpRequest : Type 0 where
  pub method : List ℕ
  pub raw_uri : List ℕ
  pub uri : List ℕ
  pub normalization : NormalizationFlags
  pub version : List ℕ
  pub headers : List ℕ
  pub user_agent : Option (List ℕ)
  pub host : Option (List ℕ)
  pub truncated : Bool

pub record HttpCounters : Type 0 where
  pub requests : ℕ
  pub oversized : ℕ
  pub malformed : ℕ

pub record HttpParser : Type 0 where
  pub buffer : List ℕ
  pub max_head : ℕ
  pub counters : HttpCounters
  pub resynchronising : Bool

unfoldable pub new : ℕ → HttpParser
new max_head = record {
  buffer = [];
  max_head = max max_head 64;
  counters = record { requests = 0; oversized = 0; malformed = 0 };
  resynchronising = false;
}

pub buffered : HttpParser → ℕ
buffered p = length p.buffer

-- Whether a window starts with the bytes of a pattern.
unfoldable pub starts_with : List ℕ → List ℕ → Bool
starts_with [] bytes = true
starts_with (x ∷ pattern) [] = false
starts_with (x ∷ pattern) (b ∷ bytes) = x == b && starts_with pattern bytes

-- `windows(..).position(..)`, with what the pattern's length adds.
unfoldable pub end_of : List ℕ → List ℕ → Option ℕ
unfolding starts_with
end_of pattern [] = none
end_of pattern (b ∷ bytes) =
    let rest = end_of pattern bytes in
    if starts_with pattern (b ∷ bytes)
    then some (length pattern)
    else elim rest [ none ↦ none | some end ↦ some (suc end) ]

abbrev pub earlier : Option ℕ → Option ℕ → Option ℕ
earlier none lf = lf
earlier (some crlf) none = some crlf
earlier (some crlf) (some lf) = some (min crlf lf)

-- `\r\n\r\n` and `\n\n`.
abbrev pub crlf_twice : List ℕ
crlf_twice = 13 ∷ 10 ∷ 13 ∷ 10 ∷ []

abbrev pub lf_twice : List ℕ
lf_twice = 10 ∷ 10 ∷ []

unfoldable pub find_head_end : List ℕ → Option ℕ
unfolding end_of
find_head_end buffer = earlier (end_of crlf_twice buffer) (end_of lf_twice buffer)

-- `is_ascii_whitespace`.
abbrev pub is_space : ℕ → Bool
is_space b = b == 32 || b == 9 || b == 10 || b == 12 || b == 13

unfoldable pub trim_start : List ℕ → List ℕ
trim_start [] = []
trim_start (b ∷ bytes) = let rest = trim_start bytes in if is_space b then rest else b ∷ bytes

abbrev pub drop_space : ℕ → List ℕ → List ℕ
drop_space b [] = if is_space b then [] else b ∷ []
drop_space b (c ∷ rest) = b ∷ c ∷ rest

unfoldable pub trim_end : List ℕ → List ℕ
trim_end [] = []
trim_end (b ∷ bytes) = drop_space b (trim_end bytes)

unfoldable pub trim : List ℕ → List ℕ
unfolding trim_start trim_end
trim bytes = trim_end (trim_start bytes)

-- What stands in front of the first of a byte, and what stands behind it, if it is there.
unfoldable pub cut : ℕ → List ℕ → List ℕ × Option (List ℕ)
cut sep [] = ([], none)
cut sep (b ∷ bytes) =
    let (front, behind) = cut sep bytes in
    if b == sep then ([], some bytes) else (b ∷ front, behind)

-- What stands in front of the first of a byte, and all from there on.
unfoldable pub span_to : ℕ → List ℕ → List ℕ × List ℕ
span_to stop [] = ([], [])
span_to stop (b ∷ bytes) =
    let (front, rest) = span_to stop bytes in
    if b == stop then ([], b ∷ bytes) else (b ∷ front, rest)

-- `split(|byte| *byte == b'\n')`.
abbrev pub onto_first : ℕ → List (List ℕ) → List (List ℕ)
onto_first b [] = (b ∷ []) ∷ []
onto_first b (line ∷ lines) = (b ∷ line) ∷ lines

unfoldable pub split_lines : List ℕ → List (List ℕ)
split_lines [] = [] ∷ []
split_lines (b ∷ bytes) =
    let lines = split_lines bytes in if b == 10 then [] ∷ lines else onto_first b lines

abbrev pub is_alphabetic : ℕ → Bool
is_alphabetic b = leb 65 b && leb b 90 || leb 97 b && leb b 122

abbrev pub to_lower : ℕ → ℕ
to_lower b = if leb 65 b && leb b 90 then b + 32 else b

unfoldable pub eq_ignore_ascii_case : List ℕ → List ℕ → Bool
unfolding bytes_eq
eq_ignore_ascii_case xs ys = bytes_eq (map to_lower xs) (map to_lower ys)

-- `user-agent` and `host`.
abbrev pub user_agent_name : List ℕ
user_agent_name = 117 ∷ 115 ∷ 101 ∷ 114 ∷ 45 ∷ 97 ∷ 103 ∷ 101 ∷ 110 ∷ 116 ∷ []

abbrev pub host_name : List ℕ
host_name = 104 ∷ 111 ∷ 115 ∷ 116 ∷ []

abbrev pub set_named : HttpRequest → List ℕ → Option (List ℕ) → HttpRequest
set_named r name none = r
set_named r name (some value) =
    if eq_ignore_ascii_case name user_agent_name
    then record r { user_agent = some (trim value) }
    else if eq_ignore_ascii_case name host_name
    then record r { host = some (trim value) }
    else r

abbrev pub is_blank : List ℕ → Bool
is_blank [] = true
is_blank (b ∷ bytes) = false

-- A header line that is not blank.
unfoldable pub add_header : HttpRequest → List ℕ → HttpRequest
unfolding cut eq_ignore_ascii_case trim
add_header r line =
    let headers = if is_blank r.headers then line else r.headers ++ (10 ∷ line) in
    let (name, value) = cut 58 line in set_named (record r { headers = headers }) name value

-- The loop over the lines, with the headers seen before.
unfoldable pub add_headers : ℕ → HttpRequest → List (List ℕ) → HttpRequest
unfolding add_header trim
add_headers seen r [] = r
add_headers seen r (line ∷ lines) =
    let skipped = add_headers seen r lines in
    let added = add_headers (suc seen) (add_header r (trim line)) lines in
    if is_blank (trim line)
    then skipped
    else if leb max_headers seen
    then record r { truncated = true }
    else added

-- A request whose line is read.
unfoldable pub request_of :
    NormalizeOptions → List ℕ → List ℕ → List ℕ → List (List ℕ) → HttpRequest
unfolding span_to add_headers
request_of options method raw_uri version lines =
    let (path, query) = span_to 63 raw_uri in
    let normalized = normalize_path path options in
    add_headers 0
      record {
        method = method;
        raw_uri = raw_uri;
        uri = normalized.bytes ++ query;
        normalization = normalized.flags;
        version = version;
        headers = [];
        user_agent = none;
        host = none;
        truncated = false;
      }
      lines

-- The target and the version, behind the method.
abbrev pub version_of : Option (List ℕ) → List ℕ
version_of none = []
version_of (some version) = trim version

unfoldable pub parse_target :
    NormalizeOptions → List ℕ → List ℕ → List (List ℕ) → Option HttpRequest
unfolding cut trim request_of
parse_target options method rest lines =
    let (target, version) = cut 32 rest in
    let raw_uri = trim target in
    if is_blank method || is_blank raw_uri
    then none
    else if not (all is_alphabetic method)
    then none
    else some (request_of options method raw_uri (version_of version) lines)

unfoldable pub parse_lines : NormalizeOptions → List (List ℕ) → Option HttpRequest
unfolding cut trim parse_target
parse_lines options [] = none
parse_lines options (line ∷ lines) =
    let request_line = trim line in
    let (method, rest) = cut 32 request_line in
    if is_blank request_line
    then none
    else rest >>= λ target. parse_target options (trim method) target lines

unfoldable pub parse_head : List ℕ → NormalizeOptions → Option HttpRequest
unfolding split_lines parse_lines
parse_head head options = parse_lines options (split_lines head)

-- Where no head ends: one that is too long is given up.
abbrev pub give_up : HttpParser → HttpParser
give_up p =
    if ltb p.max_head (length p.buffer)
    then record p {
      buffer = [];
      counters = record (p.counters) { oversized = p.counters.oversized + 1 };
      resynchronising = true;
    }
    else p

-- A request that was read, if it was.
abbrev pub counted : HttpParser → Option HttpRequest → HttpParser × List HttpRequest
counted p none =
    (record p { counters = record (p.counters) { malformed = p.counters.malformed + 1 } }, [])
counted p (some request) = (
  record p { counters = record (p.counters) { requests = p.counters.requests + 1 } },
  request ∷ [],
)

-- A head that ends at `end`.
unfoldable pub take_head : HttpParser → NormalizeOptions → ℕ → HttpParser × List HttpRequest
unfolding parse_head
take_head p options end =
    let drained = record p { buffer = drop end p.buffer } in
    if p.resynchronising
    then (record drained { resynchronising = false }, [])
    else counted drained (parse_head (take end p.buffer) options)

-- The loop, with at most so many turns; each but the last takes bytes from the buffer.
unfoldable pub read_heads : ℕ → HttpParser → NormalizeOptions → HttpParser × List HttpRequest
unfolding find_head_end take_head
read_heads zero p options = (p, [])
read_heads (suc turns) p options = elim (find_head_end p.buffer) [
  | none ↦ (give_up p, [])
  | some end ↦
      let (next, found) = take_head p options end in
      let (last, later) = read_heads turns next options in (last, found ++ later)
]

unfoldable pub push : HttpParser → List ℕ → NormalizeOptions → HttpParser × List HttpRequest
unfolding read_heads
push p bytes options =
    let grown = record p { buffer = p.buffer ++ bytes } in
    read_heads (suc (length grown.buffer)) grown options

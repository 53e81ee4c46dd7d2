-- ===== src/Device/Api.antt =====
-- The section of a peer in the configuration protocol: `api_set_peer` of
-- boringtun/src/device/api.rs, and the text of an allowed IP, of boringtun/src/device/peer.rs. A
-- string is its bytes. Addresses are read by the standard library, and keys in base64 by a crate.
use pq_boringtun.Base.{
  ℕ, ◌+◌, ◌-◌, ◌*◌, ◌^◌, Bool, true, false, ◌&&◌, ltb, leb, ◌==◌, if◌then◌else◌, List, [], ◌∷◌,
  ◌++◌, Option, none, some,
}
use pq_boringtun.Base.Bytes.{Bytes, bytes_eq}
use pq_boringtun.Errors.{Result, ok, panics, ◌>>=◌}
use pq_boringtun.Crypto.{Crypto}
use pq_boringtun.Keys
use pq_boringtun.Keys.{from_str}
use pq_boringtun.RateLimiter.{IpAddr, v4, v6}
use pq_boringtun.AllowedIps.{Networks}
use pq_boringtun.Peer.{SocketAddr, AllowedIp}
use pq_boringtun.Device.{Device, Fresh, update_peer}

-- What reads addresses and base64.
pub record Readers : Type 0 where
  pub ip_addr : Bytes → Option IpAddr
  pub socket_addr : Bytes → Option SocketAddr
  pub base64 : Bytes → Option Bytes

abbrev pub einval : ℕ
einval = 22

abbrev pub eproto : ℕ
eproto = 71

-- The words of the protocol.
abbrev pub remove_word : Bytes
remove_word = 114 ∷ 101 ∷ 109 ∷ 111 ∷ 118 ∷ 101 ∷ []

abbrev pub preshared_key_word : Bytes
preshared_key_word = 112 ∷ 114 ∷ 101 ∷ 115 ∷ 104 ∷ 97 ∷ 114 ∷ 101 ∷ 100 ∷ 95 ∷ 107 ∷ 101 ∷ 121 ∷ []

abbrev pub endpoint_word : Bytes
endpoint_word = 101 ∷ 110 ∷ 100 ∷ 112 ∷ 111 ∷ 105 ∷ 110 ∷ 116 ∷ []

abbrev pub persistent_keepalive_interval_word : Bytes
persistent_keepalive_interval_word =
    112 ∷ 101 ∷ 114 ∷ 115 ∷ 105 ∷ 115 ∷ 116 ∷ 101 ∷ 110 ∷ 116 ∷ 95 ∷ 107 ∷ 101 ∷ 101 ∷ 112 ∷ 97
    ∷ 108 ∷ 105 ∷ 118 ∷ 101 ∷ 95 ∷ 105 ∷ 110 ∷ 116 ∷ 101 ∷ 114 ∷ 118 ∷ 97 ∷ 108 ∷ []

abbrev pub replace_allowed_ips_word : Bytes
replace_allowed_ips_word =
    114 ∷ 101 ∷ 112 ∷ 108 ∷ 97 ∷ 99 ∷ 101 ∷ 95 ∷ 97 ∷ 108 ∷ 108 ∷ 111 ∷ 119 ∷ 101 ∷ 100 ∷ 95 ∷ 105
    ∷ 112 ∷ 115 ∷ []

abbrev pub allowed_ip_word : Bytes
allowed_ip_word = 97 ∷ 108 ∷ 108 ∷ 111 ∷ 119 ∷ 101 ∷ 100 ∷ 95 ∷ 105 ∷ 112 ∷ []

abbrev public_key_word : Bytes
public_key_word = 112 ∷ 117 ∷ 98 ∷ 108 ∷ 105 ∷ 99 ∷ 95 ∷ 107 ∷ 101 ∷ 121 ∷ []

abbrev pub protocol_version_word : Bytes
protocol_version_word =
    112 ∷ 114 ∷ 111 ∷ 116 ∷ 111 ∷ 99 ∷ 111 ∷ 108 ∷ 95 ∷ 118 ∷ 101 ∷ 114 ∷ 115 ∷ 105 ∷ 111 ∷ 110 ∷ []

abbrev pub true_word : Bytes
true_word = 116 ∷ 114 ∷ 117 ∷ 101 ∷ []

abbrev pub false_word : Bytes
false_word = 102 ∷ 97 ∷ 108 ∷ 115 ∷ 101 ∷ []

-- `bool::from_str`
unfoldable pub read_bool : Bytes → Option Bool
read_bool s =
    if bytes_eq s true_word then some true else if bytes_eq s false_word then some false else none

-- Decimal digits behind a number, below a limit.
unfoldable pub read_digits : ℕ → ℕ → Bytes → Option ℕ
read_digits limit n [] = some n
read_digits limit n (x ∷ xs) =
    let m = n * 10 + (x - 48) in
    let rest = read_digits limit m xs in if leb 48 x && leb x 57 && ltb m limit then rest else none

-- `from_str` of an unsigned integer below the limit: a plus sign may stand in front.
unfoldable pub read_uint : ℕ → Bytes → Option ℕ
read_uint limit [] = none
read_uint limit (x ∷ []) = if x == 43 then none else read_digits limit 0 (x ∷ [])
read_uint limit (x ∷ (y ∷ ys)) =
    if x == 43 then read_digits limit 0 (y ∷ ys) else read_digits limit 0 (x ∷ (y ∷ ys))

-- A string up to a character and behind it, if it is there.
unfoldable pub split_at : ℕ → Bytes → Option (Bytes × Bytes)
split_at c [] = none
split_at c (x ∷ xs) =
    let rest = split_at c xs in
    if x == c then some ([], xs) else elim rest [ none ↦ none | some r ↦ some (x ∷ r.0, r.1) ]

-- An address with the length of its network.
abbrev pub checked_ip : Option IpAddr → Option ℕ → Option AllowedIp
checked_ip (some (v4 x)) (some cidr) =
    if leb cidr 32 then some (record { addr = v4 x; cidr = cidr }) else none
checked_ip (some (v6 x)) (some cidr) =
    if leb cidr 128 then some (record { addr = v6 x; cidr = cidr }) else none
checked_ip (some (v4 x)) none = none
checked_ip (some (v6 x)) none = none
checked_ip none cidr = none

-- `AllowedIP::from_str`: one slash, and only one.
unfoldable pub read_allowed_ip : Readers → Bytes → Option AllowedIp
read_allowed_ip texts s = elim (split_at 47 s) [
  | none ↦ none
  | some parts ↦ elim (split_at 47 parts.1) [
    | some more ↦ none
    | none ↦ checked_ip (texts.ip_addr parts.0) (read_uint (2 ^ 8) parts.1)
  ]
]

-- What a line asks for; the key of the next peer is read later.
pub data Setting : Type 0 where
  remove replace_ips : Bool → Setting
  preshared_key : Bytes → Setting
  endpoint : SocketAddr → Setting
  keepalive : ℕ → Setting
  allowed_ip : AllowedIp → Setting
  public_key : Bytes → Setting
  version_one : Setting
  fails : ℕ → Setting
  crashes : Setting

abbrev pub or_einval {ℓ} : {A : Type ℓ} → (A → Setting) → Option A → Setting
or_einval f (some a) = f a
or_einval f none = fails einval

abbrev pub key_setting : Keys.Parsed → Setting
key_setting (Keys.key bytes) = preshared_key bytes
key_setting (Keys.illegal e) = fails einval
key_setting Keys.crashed = crashes

-- `match key` on a key and its value.
unfoldable pub read_setting : Readers → Bytes → Bytes → Setting
read_setting texts key val =
    if bytes_eq key remove_word
    then or_einval remove (read_bool val)
    else if bytes_eq key preshared_key_word
    then key_setting (from_str texts.base64 val)
    else if bytes_eq key endpoint_word
    then or_einval endpoint (texts.socket_addr val)
    else if bytes_eq key persistent_keepalive_interval_word
    then or_einval keepalive (read_uint (2 ^ 16) val)
    else if bytes_eq key replace_allowed_ips_word
    then or_einval replace_ips (read_bool val)
    else if bytes_eq key allowed_ip_word
    then or_einval allowed_ip (read_allowed_ip texts val)
    else if bytes_eq key public_key_word
    then public_key val
    else if bytes_eq key protocol_version_word
    then or_einval (λ n. if n == 1 then version_one else fails einval) (read_uint (2 ^ 32) val)
    else fails einval

-- Bytes that continue a character of UTF-8.
abbrev pub continue_char : Bytes → Bool
continue_char [] = true
continue_char (x ∷ xs) = leb 128 x && ltb x 192 && continue_char xs

-- A line without its last character.
unfoldable pub pop : Bytes → Bytes
pop [] = []
pop (x ∷ xs) = let rest = pop xs in if continue_char xs then [] else x ∷ rest

unfoldable pub read_command : Readers → Bytes → Setting
read_command texts cmd = elim (split_at 61 cmd) [
  | none ↦ fails eproto
  | some parts ↦ read_setting texts parts.0 parts.1
]

-- The variables of `api_set_peer`.
pub record Section : Type 0 where
  pub is_removed : Bool
  pub replaces_ips : Bool
  pub endpoint_of : Option SocketAddr
  pub keepalive_of : Option ℕ
  pub key_of : Bytes
  pub psk_of : Option Bytes
  pub ips_of : List AllowedIp

unfoldable pub new_section : Bytes → Section
new_section pub_key = record {
  is_removed = false;
  replaces_ips = false;
  endpoint_of = none;
  keepalive_of = none;
  key_of = pub_key;
  psk_of = none;
  ips_of = [];
}

-- No keepalive is 0.
abbrev pub or_zero : Option ℕ → ℕ
or_zero (some n) = n
or_zero none = 0

-- What the loop does about a line.
pub data Step : Type 0 where
  finishes dies : Step
  goes_on : Section → Step
  next_peer : Bytes → Step
  stops : ℕ → Step

unfoldable pub step_with : Section → Setting → Step
step_with s (remove b) = goes_on (record s { is_removed = b })
step_with s (replace_ips b) = goes_on (record s { replaces_ips = b })
step_with s (preshared_key k) = goes_on (record s { psk_of = some k })
step_with s (endpoint a) = goes_on (record s { endpoint_of = some a })
step_with s (keepalive n) = goes_on (record s { keepalive_of = some n })
step_with s (allowed_ip ip) = goes_on (record s { ips_of = s.ips_of ++ (ip ∷ []) })
step_with s (public_key val) = next_peer val
step_with s version_one = goes_on s
step_with s (fails e) = stops e
step_with s crashes = dies

unfoldable pub step_of : Readers → Section → Bytes → Step
step_of texts s [] = finishes
step_of texts s (x ∷ xs) = step_with s (read_command texts (x ∷ xs))

module _ (w : Networks) (c : Crypto) (texts : Readers) (fresh : Device w → Fresh) where
  -- `d.update_peer(...)`
  unfoldable pub commit : Device w → Section → Result (Device w)
  commit d s =
      update_peer w c d s.key_of s.is_removed s.endpoint_of s.ips_of (or_zero s.keepalive_of)
        s.psk_of (fresh d)

  -- The loop of `api_set_peer` on what `read_line` returns, none for an error; behind the last line
  -- it returns nothing. The outcome is the device and the error number.
  unfoldable pub api_loop : Device w → Section → List (Option Bytes) → Result (Device w × ℕ)
  api_loop d s [] = commit d s >>= λ d'. ok (d', 0)
  api_loop d s (none ∷ lines) = ok (d, 0)
  api_loop d s (some line ∷ lines) = elim (step_of texts s (pop line)) [
    | finishes ↦ commit d s >>= λ d'. ok (d', 0)
    | goes_on s' ↦ api_loop d s' lines
    | stops e ↦ ok (d, e)
    | dies ↦ panics
    | next_peer val ↦ commit d s >>= λ d'. elim (from_str texts.base64 val) [
      | Keys.key k ↦ api_loop d' (record s { key_of = k; ips_of = [] }) lines
      | Keys.illegal e ↦ ok (d', einval)
      | Keys.crashed ↦ panics
    ]
  ]

  -- `api_set_peer`
  unfoldable pub api_set_peer : Device w → Bytes → List (Option Bytes) → Result (Device w × ℕ)
  api_set_peer d pub_key lines = api_loop d (new_section pub_key) lines

-- ===== src/Tests/Api.antt =====
-- Lines of the configuration protocol.
use pq_boringtun.Base.{◌≡◌, refl, true, [], ◌∷◌, ◌++◌, none, some}
use pq_boringtun.RateLimiter.{v4}
use pq_boringtun.Device.Api.{
  Readers, remove, keepalive, fails, read_command, remove_word, true_word, allowed_ip_word,
  persistent_keepalive_interval_word, einval, eproto, pop, read_setting, read_bool, read_uint,
  read_digits, read_allowed_ip, split_at,
}

abbrev texts : Readers
texts = record { ip_addr = λ s. some (v4 s); socket_addr = λ s. none; base64 = λ s. none }

removes : read_command texts (remove_word ++ (61 ∷ true_word)) ≡ remove true
unfolding read_command read_setting read_bool split_at
removes = refl

no_value : read_command texts remove_word ≡ fails eproto
unfolding read_command split_at
no_value = refl

-- 65535 is an interval, and 65536 is not.
longest_interval :
    read_command texts (persistent_keepalive_interval_word ++ (61 ∷ 54 ∷ 53 ∷ 53 ∷ 51 ∷ 53 ∷ []))
    ≡ keepalive 65535
unfolding read_command read_setting read_uint read_digits split_at
longest_interval = refl

interval_too_long :
    read_command texts (persistent_keepalive_interval_word ++ (61 ∷ 54 ∷ 53 ∷ 53 ∷ 51 ∷ 54 ∷ []))
    ≡ fails einval
unfolding read_command read_setting read_uint read_digits split_at
interval_too_long = refl

-- 7/33 as a network of version 4 is refused.
network_too_small :
    read_command texts (allowed_ip_word ++ (61 ∷ 55 ∷ 47 ∷ 51 ∷ 51 ∷ [])) ≡ fails einval
unfolding read_command read_setting read_allowed_ip read_uint read_digits split_at
network_too_small = refl

pops_char : pop (97 ∷ 195 ∷ 169 ∷ []) ≡ 97 ∷ []
unfolding pop
pops_char = refl

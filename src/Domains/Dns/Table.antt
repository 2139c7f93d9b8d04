-- ===== src/Domains/Dns/Table.antt =====
-- api/domains/dns.py: the table of the upstream servers. The pattern `_DNS_PROXY_STAT_RE` of a line is eight
-- words between blanks: a text, numbers, two of them with the unit `ms`.
use keenetic_router_pro.Prelude.{
  String, List, [], ◌∷◌, false, Option, some, none, Bool, ℕ, ◌+◌, ◌*◌, ◌-◌, leb, ◌&&◌,
  if◌then◌else◌, ◌==◌,
}
use Prim.Native.Char.{code}
use keenetic_router_pro.Text.{split_words}
use keenetic_router_pro.Transport.Commands.{nonempty_lines}

pub record Server : Type 0 where
  pub ip : String
  pub port : ℕ
  pub sent : ℕ
  pub answered : ℕ
  pub nxdomain : ℕ
  pub failed : ℕ
  pub median_ms : ℕ
  pub average_ms : ℕ
  pub rank : ℕ

-- The digits at the head of a text, after those read before, and what follows them.
unfoldable pub read_digits : ℕ → String → ℕ × String
read_digits n String.[] = (n, String.[])
read_digits n (String.◌∷◌ c s) =
    if leb b'0' (code c) && leb (code c) b'9'
    then read_digits (10 * n + (code c - b'0')) s
    else (n, String.◌∷◌ c s)

abbrev starts_digit : String → Bool
starts_digit String.[] = false
starts_digit (String.◌∷◌ c s) = leb b'0' (code c) && leb (code c) b'9'

-- `(\d+)` and the unit behind it.
unfoldable pub number : String → String → Option ℕ
unfolding read_digits
number unit word =
    if starts_digit word && (read_digits 0 word).1 == unit
    then some (read_digits 0 word).0
    else none

abbrev server_of : String → ℕ → ℕ → ℕ → ℕ → ℕ → ℕ → ℕ → Server
server_of ip port sent answered nxdomain median average rank = record {
  ip = ip;
  port = port;
  sent = sent;
  answered = answered;
  nxdomain = nxdomain;
  failed = sent - answered - nxdomain;
  median_ms = median;
  average_ms = average;
  rank = rank;
}

abbrev with {ℓ} : {A : Type ℓ} → Option ℕ → (ℕ → Option A) → Option A
with none f = none
with (some n) f = f n

-- One line of the table.
unfoldable pub server_of_words : List String → Option Server
unfolding number
server_of_words (ip ∷ port ∷ sent ∷ answered ∷ nxdomain ∷ median ∷ average ∷ rank ∷ []) =
    with (number "" port) (λ port. with (number "" sent) (λ sent.
      with (number "" answered) (λ answered. with (number "" nxdomain) (λ nxdomain.
        with (number "ms" median) (λ median. with (number "ms" average) (λ average.
          with (number "" rank)
            (λ rank. some (server_of ip port sent answered nxdomain median average rank))))))))
server_of_words words = none

abbrev add_server : Option Server → List Server → List Server
add_server none servers = servers
add_server (some s) servers = s ∷ servers

unfoldable pub servers_of_lines : List String → List Server
unfolding server_of_words
servers_of_lines [] = []
servers_of_lines (line ∷ lines) =
    add_server (server_of_words (split_words line)) (servers_of_lines lines)

-- `_parse_dns_proxy_stat(stat_text)`: an empty line does not match the pattern.
unfoldable pub parse_dns_proxy_stat : String → List Server
unfolding servers_of_lines
parse_dns_proxy_stat stat_text = servers_of_lines (nonempty_lines stat_text)

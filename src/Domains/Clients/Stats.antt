-- ===== src/Domains/Clients/Stats.antt =====
-- api/domains/clients.py: the counts of the clients, per access point too.
use keenetic_router_pro.Prelude.{
  keep, not, ◌&&◌, String, List, [], ◌∷◌, false, Bool, ℕ, length, ◌≡◌, refl, arith, ◌+◌, ◌==◌,
  length-append, if◌then◌else◌, ◌||◌, ◌++◌,
}
use keenetic_router_pro.Value.{
  Value, dict, str, bool, Fields, end, field, Runtime, get, get_or, or_else, truthy, value_eq,
}
use keenetic_router_pro.Text.{lower}
use keenetic_router_pro.Utils.Clients.{is_client_online}

pub record ClientStats : Type 0 where
  pub connected : ℕ
  pub disconnected : ℕ
  pub per_ap : List (Value × ℕ)
  pub extenders : List Fields

unfoldable pub system_mode : Runtime → Fields → String
system_mode rt client = lower (rt.print (or_else (get "system-mode" client) (str "")))

abbrev pub is_extender : String → Bool
is_extender mode = mode == "extender" || mode == "repeater"

-- The entry of an extender.
unfoldable pub extender : String → Fields → Fields
extender mode client = field "mac" (get "mac" client) (
    field "ip" (get "ip" client) (
      field "name"
        (or_else (get "name" client) (or_else (get "hostname" client) (get "mac" client)))
        (field "mode" (str mode) (
          field "active" (get_or "active" (bool false) client) (
            field "uptime" (get "uptime" client) (
              field "firmware" (get "firmware" client) (
                field "description" (get "description" client)
                  (field "http_host" (get "http-host" client) end))))))))

abbrev name_of_iface : Runtime → Value → Value
name_of_iface rt (dict iface) =
    or_else (get "name" iface) (or_else (get "id" iface) (str "Unknown"))
name_of_iface rt iface = if truthy iface then str (rt.print iface) else str "Unknown"

-- `ap_name`: a name that is no text stays as it is.
unfoldable pub ap_name : Runtime → Fields → Value
ap_name rt client =
    let ssid = get "ssid" client in
    if truthy ssid then str (rt.print ssid) else name_of_iface rt (get "interface" client)

-- `per_ap[name] = per_ap.get(name, 0) + 1`.
unfoldable pub count_at : Value → List (Value × ℕ) → List (Value × ℕ)
count_at name [] = (name, 1) ∷ []
count_at name ((key, n) ∷ rest) =
    if value_eq key name then (key, n + 1) ∷ rest else (key, n) ∷ count_at name rest

-- One client: an extender is no client, and only a client that is online counts for its access point.
unfoldable pub tally : Runtime → Fields → ClientStats → ClientStats
unfolding system_mode extender ap_name count_at
tally rt client s =
    if is_extender (system_mode rt client)
    then record s { extenders = s.extenders ++ (extender (system_mode rt client) client ∷ []) }
    else if is_client_online rt client
    then record s { connected = s.connected + 1; per_ap = count_at (ap_name rt client) s.per_ap }
    else record s { disconnected = s.disconnected + 1 }

unfoldable pub tally_all : Runtime → List Fields → ClientStats → ClientStats
tally_all rt [] s = s
tally_all rt (client ∷ clients) s = tally_all rt clients (tally rt client s)

abbrev pub no_stats : ClientStats
no_stats = record { connected = 0; disconnected = 0; per_ap = []; extenders = [] }

-- `summarize_client_stats(clients)`; its `total` and `extender_count` are sums and lengths of these.
unfoldable pub summarize_client_stats : Runtime → List Fields → ClientStats
unfolding tally_all
summarize_client_stats rt clients = tally_all rt clients no_stats

abbrev pub sum_counts : List (Value × ℕ) → ℕ
sum_counts [] = 0
sum_counts ((key, n) ∷ rest) = n + sum_counts rest

sum_counts-count_at :
    (name : Value) (xs : List (Value × ℕ)) → sum_counts (count_at name xs) ≡ sum_counts xs + 1
unfolding count_at
sum_counts-count_at name [] = refl
sum_counts-count_at name ((key, n) ∷ rest) = ground (arith, sum_counts-count_at name rest)

-- An extender, and a client that is online or not.
abbrev pub extends : Runtime → Fields → Bool
extends rt client = is_extender (system_mode rt client)

abbrev pub is_online : Runtime → Fields → Bool
is_online rt client = not (extends rt client) && is_client_online rt client

abbrev pub is_offline : Runtime → Fields → Bool
is_offline rt client = not (extends rt client) && not (is_client_online rt client)

-- The counts of a summary are those of the list, on top of the ones before, and the access points share out
-- the clients that are online.
abbrev pub IsSummaryOf : Runtime → ClientStats → List Fields → ClientStats → Type 0
IsSummaryOf rt before clients s =
    (s.connected ≡ before.connected + length (keep (is_online rt) clients))
    × (s.disconnected ≡ before.disconnected + length (keep (is_offline rt) clients))
    × (length s.extenders ≡ length before.extenders + length (keep (extends rt) clients))
    × (sum_counts s.per_ap ≡ sum_counts before.per_ap + length (keep (is_online rt) clients))

tally-counts :
    (rt : Runtime) (client : Fields) (s : ClientStats)
    → IsSummaryOf rt s (client ∷ []) (tally rt client s)
unfolding tally keep
tally-counts rt client s = ground (
  arith,
  length-append s.extenders (extender (system_mode rt client) client ∷ []),
  sum_counts-count_at (ap_name rt client) s.per_ap,
)

tally_all-IsSummaryOf :
    (rt : Runtime) (clients : List Fields) (s : ClientStats)
    → IsSummaryOf rt s clients (tally_all rt clients s)
unfolding tally_all keep
tally_all-IsSummaryOf rt [] s = (omega arith, omega arith, omega arith, omega arith)
tally_all-IsSummaryOf rt (client ∷ clients) s =
    ground (arith, tally_all-IsSummaryOf rt clients (tally rt client s), tally-counts rt client s)

-- Every client is an extender, online or offline.
parts :
    (rt : Runtime) (clients : List Fields)
    → length (keep (is_online rt) clients)
        + length (keep (is_offline rt) clients)
        + length (keep (extends rt) clients)
      ≡ length clients
unfolding keep
parts rt [] = refl
parts rt (client ∷ clients) = ground (arith, parts rt clients)

-- The summary counts as online the clients of the list that are online, as offline those that are not, and
-- lists the extenders, which are counted as neither; the counts of the access points add up to the clients
-- that are online; and every client is counted once.
pub summarize_client_stats-adds_up :
    (rt : Runtime) (clients : List Fields)
    → IsSummaryOf rt no_stats clients (summarize_client_stats rt clients)
      × ((summarize_client_stats rt clients).connected
            + (summarize_client_stats rt clients).disconnected
            + length (summarize_client_stats rt clients).extenders
          ≡ length clients)
unfolding summarize_client_stats
summarize_client_stats-adds_up rt clients =
    let h = tally_all-IsSummaryOf rt clients no_stats in
    (h, omega (arith, h.0, h.1, h.2, parts rt clients))

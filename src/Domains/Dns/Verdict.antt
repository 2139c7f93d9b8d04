-- ===== src/Domains/Dns/Verdict.antt =====
-- api/domains/dns.py: the status, read off the published servers.
use keenetic_router_pro.Prelude.{
  String, List, [], ◌∷◌, ◌++◌, true, Bool, ◌+◌, length, any, ◌≡◌, refl, arith, leb, not, ◌&&◌, eqb,
  if◌then◌else◌, length-append, ap, ◌∙◌, sym,
}
use keenetic_router_pro.Value.{Fields}
use keenetic_router_pro.Transport.Http.{Site}
use keenetic_router_pro.Domains.Dns.Table.{Server}
use keenetic_router_pro.Domains.Dns.{
  Proxy, Totals, Urls, add_proxies, add_proxy, no_totals, status_of, count_if, sum_sent, sum_failed,
  is_active, upstream_is_weak, weak_upstream_min_sent, is_empty,
}

-- Every upstream of the published proxies.
abbrev pub servers_of : List Proxy → List Server
servers_of [] = []
servers_of (p ∷ ps) = p.servers ++ servers_of ps

-- The encrypted upstreams of the published proxies.
abbrev pub uris_of : List Proxy → List String
uris_of [] = []
uris_of (p ∷ ps) = p.configured_doh_uris ++ uris_of ps

-- The status, without the totals of the loop.
unfoldable pub verdict : List Server → String
unfolding sum_sent
verdict servers =
    if eqb (length servers) 0
    then "unknown"
    else if not (any is_active servers) && leb weak_upstream_min_sent (sum_sent servers)
    then "down"
    else if any upstream_is_weak servers
    then "degraded"
    else "ok"

count_if-append :
    (p : Server → Bool) (xs ys : List Server)
    → count_if p (xs ++ ys) ≡ count_if p xs + count_if p ys
unfolding count_if
count_if-append p [] ys = omega arith
count_if-append p (x ∷ xs) ys = ground (arith, count_if-append p xs ys)

sum_sent-append : (xs ys : List Server) → sum_sent (xs ++ ys) ≡ sum_sent xs + sum_sent ys
unfolding sum_sent
sum_sent-append [] ys = omega arith
sum_sent-append (x ∷ xs) ys = ground (arith, sum_sent-append xs ys)

sum_failed-append : (xs ys : List Server) → sum_failed (xs ++ ys) ≡ sum_failed xs + sum_failed ys
unfolding sum_failed
sum_failed-append [] ys = omega arith
sum_failed-append (x ∷ xs) ys = ground (arith, sum_failed-append xs ys)

append_nil {ℓ} : {A : Type ℓ} (xs : List A) → xs ++ [] ≡ xs
append_nil [] = refl
append_nil (x ∷ xs) = ap (λ l. x ∷ l) (append_nil xs)

append_assoc {ℓ} : {A : Type ℓ} (xs ys zs : List A) → (xs ++ ys) ++ zs ≡ xs ++ (ys ++ zs)
append_assoc [] ys zs = refl
append_assoc (x ∷ xs) ys zs = ap (λ l. x ∷ l) (append_assoc xs ys zs)

servers_of-append :
    (ps : List Proxy) (p : Proxy) → servers_of (ps ++ (p ∷ [])) ≡ servers_of ps ++ p.servers
servers_of-append [] p = append_nil p.servers
servers_of-append (q ∷ ps) p =
    ap (λ l. q.servers ++ l) (servers_of-append ps p)
    ∙ sym (append_assoc q.servers (servers_of ps) p.servers)

uris_of-append :
    (ps : List Proxy) (p : Proxy) → uris_of (ps ++ (p ∷ [])) ≡ uris_of ps ++ p.configured_doh_uris
uris_of-append [] p = append_nil p.configured_doh_uris
uris_of-append (q ∷ ps) p =
    ap (λ l. q.configured_doh_uris ++ l) (uris_of-append ps p)
    ∙ sym (append_assoc q.configured_doh_uris (uris_of ps) p.configured_doh_uris)

-- The totals are those of the published servers.
abbrev pub IsAccounted : Totals → Type 0
IsAccounted t =
    (t.total_servers ≡ length (servers_of t.proxies))
    × (t.active_servers ≡ count_if is_active (servers_of t.proxies))
    × (t.sent_requests ≡ sum_sent (servers_of t.proxies))
    × (t.weak_servers ≡ count_if upstream_is_weak (servers_of t.proxies))
    × (t.failed_requests ≡ sum_failed (servers_of t.proxies))
    × (t.doh_servers ≡ length (uris_of t.proxies))

add_proxy-IsAccounted : (p : Proxy) (t : Totals) → IsAccounted t → IsAccounted (add_proxy p t)
unfolding add_proxy
add_proxy-IsAccounted p t h =
    rw
      (
        servers_of-append t.proxies p,
        length-append (servers_of t.proxies) p.servers,
        count_if-append is_active (servers_of t.proxies) p.servers,
        count_if-append upstream_is_weak (servers_of t.proxies) p.servers,
        sum_sent-append (servers_of t.proxies) p.servers,
        sum_failed-append (servers_of t.proxies) p.servers,
        uris_of-append t.proxies p,
        length-append (uris_of t.proxies) p.configured_doh_uris,
      )
      (
        omega (arith, h.0),
        omega (arith, h.1),
        omega (arith, h.2),
        omega (arith, h.3),
        omega (arith, h.4),
        omega (arith, h.5),
      )

add_proxies-IsAccounted :
    (site : Site) (urls : Urls) (proxies : List Fields) (t : Totals)
    → IsAccounted t
    → IsAccounted (add_proxies site urls proxies t)
unfolding add_proxies
add_proxies-IsAccounted site urls [] t h = h
add_proxies-IsAccounted site urls (proxy ∷ rest) t h =
    add_proxies-IsAccounted site urls rest _ (add_proxy-IsAccounted _ t h)

count_if-any : (p : Server → Bool) (xs : List Server) → eqb (count_if p xs) 0 ≡ not (any p xs)
unfolding count_if
count_if-any p [] = refl
count_if-any p (x ∷ xs) = ground (arith, count_if-any p xs)

verdict_of : (t : Totals) → IsAccounted t → status_of t ≡ verdict (servers_of t.proxies)
unfolding status_of verdict
verdict_of t h = ground (
  arith,
  count_if-any is_active (servers_of t.proxies),
  count_if-any upstream_is_weak (servers_of t.proxies),
  no_proxies t.proxies,
)
  where
    no_proxies : (ps : List Proxy) → is_empty ps ≡ true → length (servers_of ps) ≡ 0
    no_proxies [] e = refl
    no_proxies (p ∷ ps) e = cc

-- The status of the loop's totals is the one read off the published servers: unknown without a server, down
-- where none answered and at least 20 queries went out, degraded where one is weak, and ok otherwise; and
-- all six
-- totals are those of the published servers and of the encrypted upstreams.
pub add_proxies-verdict :
    (site : Site) (urls : Urls) (proxies : List Fields)
    → (status_of (add_proxies site urls proxies no_totals)
        ≡ verdict (servers_of (add_proxies site urls proxies no_totals).proxies))
      × IsAccounted (add_proxies site urls proxies no_totals)
unfolding count_if sum_sent sum_failed
add_proxies-verdict site urls proxies =
    let h =
      add_proxies-IsAccounted site urls proxies no_totals (refl, refl, refl, refl, refl, refl) in
    (verdict_of _ h, h)

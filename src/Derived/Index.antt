-- ===== src/Derived/Index.antt =====
-- coordinator_parts/derived.py, `build_clients_by_mac`: online records in the client index.
use keenetic_router_pro.Prelude.{
  String, ◌≡◌, true, false, Option, none, some, List, [], ◌∷◌, All, ◌==◌, eq_iff, eq_refl, arith,
  Bool-cases, inl, inr, Dict, lookup, insert, lookup-insert, refl, ap, ◌∙◌, When, when, ◌&&◌,
}
use keenetic_router_pro.Value.{Value, Fields, get, Runtime, dicts}
use keenetic_router_pro.Utils.Mac.{normalize_mac}
use keenetic_router_pro.Utils.Clients.{is_client_online}
use keenetic_router_pro.Derived.{
  displaces, index_client, index_clients, build_clients_by_mac, place, not,
}

module _ (rt : Runtime) where
  abbrev pub mac_of : Fields → String
  mac_of client = normalize_mac rt (get "mac" client)

  -- The index has an online client at the address.
  pub record IsOnlineAt (m : String) (d : Dict Fields) : Type 0 where
    pub client : Fields
    pub found : lookup m d ≡ some client
    pub online : is_client_online rt client ≡ true

  insert-IsOnlineAt :
      (m : String) (c : Fields) (d : Dict Fields)
      → is_client_online rt c ≡ true
      → IsOnlineAt m (insert m c d)
  insert-IsOnlineAt m c d h = record {
    client = c;
    found = rw (lookup-insert, eq_refl m);
    online = h;
  }

  insert_ne-IsOnlineAt :
      (m k : String) (c : Fields) (d : Dict Fields)
      → (k == m) ≡ false
      → IsOnlineAt m d
      → IsOnlineAt m (insert k c d)
  insert_ne-IsOnlineAt m k c d h o = record {
    client = o.client;
    found = rw (lookup-insert, h) o.found;
    online = o.online;
  }

  online_displaces :
      (x : Option Fields) (c : Fields) → is_client_online rt c ≡ true → displaces rt x c ≡ true
  online_displaces none c h = refl
  online_displaces (some x) c h = ground arith

  -- What takes the place of an online record is online.
  online_of_displaces :
      (x : Option Fields) (e c : Fields)
      → x ≡ some e
      → is_client_online rt e ≡ true
      → displaces rt x c ≡ true
      → is_client_online rt c ≡ true
  online_of_displaces x e c p h d = ground arith

  place-IsOnlineAt :
      (m k : String) (c : Fields) (d : Dict Fields) → IsOnlineAt m d → IsOnlineAt m (place rt k c d)
  unfolding place
  place-IsOnlineAt m k c d o = elim (Bool-cases (displaces rt (lookup k d) c)) [
    | inr kept ↦ rw kept o
    | inl taken ↦ rw taken (elim (Bool-cases (k == m)) [
      | inr other ↦ insert_ne-IsOnlineAt m k c d other o
      | inl same ↦
          let e = (eq_iff k m).0 same in
          rw e (
            insert-IsOnlineAt m c d (
              online_of_displaces (lookup k d) o.client c (ap (λ j. lookup j d) e ∙ o.found)
                o.online taken))
    ])
  ]

  place_self-IsOnlineAt :
      (m : String) (c : Fields) (d : Dict Fields)
      → is_client_online rt c ≡ true
      → IsOnlineAt m (place rt m c d)
  unfolding place
  place_self-IsOnlineAt m c d h = rw (online_displaces (lookup m d) c h) (insert-IsOnlineAt m c d h)

  -- One client, offered to an index that has an online one.
  index_client-IsOnlineAt :
      (m : String) (c : Fields) (d : Dict Fields)
      → IsOnlineAt m d
      → IsOnlineAt m (index_client rt c d)
  unfolding index_client
  index_client-IsOnlineAt m c d o = elim (Bool-cases (mac_of c == "")) [
    | inl empty ↦ rw empty o
    | inr proper ↦ rw proper (place-IsOnlineAt m (mac_of c) c d o)
  ]

  index_client_self :
      (c : Fields) (d : Dict Fields)
      → (mac_of c == "") ≡ false
      → is_client_online rt c ≡ true
      → IsOnlineAt (mac_of c) (index_client rt c d)
  unfolding index_client
  index_client_self c d p h = rw p (place_self-IsOnlineAt (mac_of c) c d h)

  index_clients-IsOnlineAt :
      (m : String) (cs : List Fields) (d : Dict Fields)
      → IsOnlineAt m d
      → IsOnlineAt m (index_clients rt cs d)
  unfolding index_clients
  index_clients-IsOnlineAt m [] d o = o
  index_clients-IsOnlineAt m (c ∷ cs) d o =
      index_clients-IsOnlineAt m cs (index_client rt c d) (index_client-IsOnlineAt m c d o)

  -- Every client of the list with an address that is online.
  abbrev pub AreIndexed : List Fields → Dict Fields → Type 0
  AreIndexed cs d =
      All (λ c. When (not (mac_of c == "") && is_client_online rt c) (IsOnlineAt (mac_of c) d)) cs

  index_clients-AreIndexed :
      (cs : List Fields) (d : Dict Fields) → AreIndexed cs (index_clients rt cs d)
  unfolding index_clients
  index_clients-AreIndexed [] d = tt
  index_clients-AreIndexed (c ∷ cs) d = (
    when (not (mac_of c == "") && is_client_online rt c) (λ h.
        index_clients-IsOnlineAt (mac_of c) cs (index_client rt c d)
          (index_client_self c d (ground arith) (ground arith))),
    index_clients-AreIndexed cs (index_client rt c d),
  )

  -- For every client of the payload that has an address and is online, the index has an online record
  -- at that address: a roaming client that is listed twice does not turn offline.
  pub build_clients_by_mac-AreIndexed :
      (clients : List Value) → AreIndexed (dicts clients) (build_clients_by_mac rt clients)
  unfolding build_clients_by_mac
  build_clients_by_mac-AreIndexed clients = index_clients-AreIndexed (dicts clients) []

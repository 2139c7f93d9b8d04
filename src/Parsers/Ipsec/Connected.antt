-- ===== src/Parsers/Ipsec/Connected.antt =====
-- api/parsers/ipsec.py, `parse_ipsec_statusall`: the state of a tunnel.
use keenetic_router_pro.Prelude.{
  String, ◌==◌, ◌≡◌, ◌&&◌, arith, eq_iff, ◌∙◌, refl, Bool-cases, inl, ap, inr, ◌||◌,
}
use keenetic_router_pro.Value.{
  Value, bool, str, Fields, get, put, get-put_self, get-put_ne, dicts, elements, Runtime,
}
use keenetic_router_pro.Parsers.Ipsec.{
  state_of, settle_tunnel, settle_state, any_installed, ike_up, is_text, counted, Bool, false, true,
  List,
}

is_text-other :
    (a b : String) (v : Value) → (a == b) ≡ false → is_text a v ≡ true → is_text b v ≡ false
is_text-other a b (str s) h e = ground (arith, eq_iff s a, eq_iff s b, eq_iff a b)
is_text-other a b _ h e = ground arith

state_of_lem :
    (installed : Bool) (tunnel : Fields)
    → is_text "PHASE2_ESTABLISHED" (state_of installed tunnel) ≡ (installed && ike_up tunnel)
unfolding state_of
state_of_lem installed tunnel = ground (
  arith,
  is_text-other "REKEYING" "PHASE2_ESTABLISHED" (get "ike_state" tunnel) refl,
  is_text-other "CONNECTING" "PHASE2_ESTABLISHED" (get "ike_state" tunnel) refl,
)

settle_state_lem :
    (installed : Bool) (tunnel : Fields)
    → get "connected" tunnel ≡ bool false
    → (get "connected" (settle_state installed tunnel) ≡ bool (installed && ike_up tunnel))
      × (is_text "PHASE2_ESTABLISHED" (get "state" (settle_state installed tunnel))
          ≡ (installed && ike_up tunnel))
unfolding settle_state
settle_state_lem installed tunnel h = elim (Bool-cases (installed && ike_up tunnel)) [
  | inl u ↦ (
    rw (u, get-put_self),
    rw (
      u,
      get-put_ne "connected" "state" (bool true) (put "state" (state_of installed tunnel) tunnel)
          refl,
      get-put_self,
      state_of_lem installed tunnel,
      u,
    ),
  )
  | inr u ↦ (
    rw (u, get-put_ne "state" "connected" (state_of installed tunnel) tunnel refl, h),
    rw (u, get-put_self, state_of_lem installed tunnel, u),
  )
]

ike_state_counted :
    (sas : List Fields) (tunnel : Fields) (k : String)
    → (("tx_packets" == k) ≡ false)
      × (("rx_packets" == k) ≡ false)
      × (("tx_bytes" == k) ≡ false)
      × (("rx_bytes" == k) ≡ false)
    → get k (counted sas tunnel) ≡ get k tunnel
ike_state_counted sas tunnel k h =
    get-put_ne _ k _ _ h.0
    ∙ get-put_ne _ k _ _ h.1
    ∙ get-put_ne _ k _ _ h.2
    ∙ get-put_ne _ k _ _ h.3

-- After the dump is read, a tunnel that was not marked before counts as connected exactly if its IKE phase
-- is up and one of its phase 2 associations is installed, and that is also exactly when its state says so.
pub settle_tunnel-connected :
    (rt : Runtime) (tunnel : Fields)
    → get "connected" tunnel ≡ bool false
    → let up = any_installed rt (dicts (elements (get "phase2_sa_list" tunnel))) && ike_up tunnel in
      (get "connected" (settle_tunnel rt tunnel) ≡ bool up)
      × (is_text "PHASE2_ESTABLISHED" (get "state" (settle_tunnel rt tunnel)) ≡ up)
unfolding settle_tunnel
settle_tunnel-connected rt tunnel h =
    let sas = dicts (elements (get "phase2_sa_list" tunnel)) in
    let (a, b) =
      settle_state_lem (any_installed rt sas) (counted sas tunnel)
        (ike_state_counted sas tunnel "connected" (refl, refl, refl, refl) ∙ h) in
    let e =
      ap (λ v. any_installed rt sas && (is_text "ESTABLISHED" v || is_text "REKEYING" v))
        (ike_state_counted sas tunnel "ike_state" (refl, refl, refl, refl)) in
    (a ∙ ap bool e, b ∙ e)

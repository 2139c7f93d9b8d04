-- ===== src/Utils/Devices/Tokens.antt =====
-- utils.py: the tokens of mesh nodes in unique ids.
use keenetic_router_pro.Prelude.{
  String, ℕ, Bool, true, false, ◌&&◌, if◌then◌else◌, eqb, ◌==◌, ◌≡◌, refl, arith, Bool-cases, inl,
  inr,
}
use keenetic_router_pro.Text.{replace, strip}
use keenetic_router_pro.Utils.Devices.{
  is_word, underscore, replace_runs, lstrip_underscores, rstrip_underscores, sanitize_mesh_id, code,
}

module _ (letters : ℕ → Bool) where
  abbrev pub AreWords : String → Type 0
  AreWords String.[] = Unit {0}
  AreWords (String.◌∷◌ c s) = (is_word letters (code c) ≡ true) × AreWords s

  -- No underscore at the left end.
  abbrev pub Starts : String → Type 0
  Starts String.[] = Unit {0}
  Starts (String.◌∷◌ c s) = eqb (code c) b'_' ≡ false

  -- Letters, digits and underscores only, at least one of them, and neither end an underscore.
  abbrev pub IsToken : String → Type 0
  IsToken s = ((s == "") ≡ false) × AreWords s × Starts s × (rstrip_underscores s ≡ s)

  replace_runs-AreWords : (run : Bool) (s : String) → AreWords (replace_runs letters run s)
  unfolding replace_runs is_word underscore
  replace_runs-AreWords run String.[] = tt
  replace_runs-AreWords run (String.◌∷◌ c s) = elim (Bool-cases (is_word letters (code c))) [
    | inl w ↦ rw w (w, replace_runs-AreWords false s)
    | inr n ↦ rw n (when_dropped run (replace_runs letters true s) (replace_runs-AreWords true s))
  ]
    where
      when_dropped :
          (b : Bool) (rest : String)
          → AreWords rest
          → AreWords (if b then rest else String.◌∷◌ underscore rest)
      when_dropped true rest h = h
      when_dropped false rest h = (refl, h)

  lstrip-AreWords : (s : String) → AreWords s → AreWords (lstrip_underscores s)
  unfolding lstrip_underscores
  lstrip-AreWords String.[] h = tt
  lstrip-AreWords (String.◌∷◌ c s) h = ground (arith, lstrip-AreWords s h.1, h.0, h.1)

  lstrip-Starts : (s : String) → Starts (lstrip_underscores s)
  unfolding lstrip_underscores
  lstrip-Starts String.[] = tt
  lstrip-Starts (String.◌∷◌ c s) = elim (Bool-cases (eqb (code c) b'_')) [
    | inl e ↦ rw e (lstrip-Starts s)
    | inr f ↦ rw f f
  ]

  rstrip-AreWords : (s : String) → AreWords s → AreWords (rstrip_underscores s)
  unfolding rstrip_underscores
  rstrip-AreWords String.[] h = tt
  rstrip-AreWords (String.◌∷◌ c s) h =
      elim (Bool-cases (eqb (code c) b'_' && rstrip_underscores s == "")) [
        | inl e ↦ rw e tt
        | inr f ↦ rw f (h.0, rstrip-AreWords s h.1)
      ]

  rstrip-Starts : (s : String) → Starts s → Starts (rstrip_underscores s)
  unfolding rstrip_underscores
  rstrip-Starts String.[] h = tt
  rstrip-Starts (String.◌∷◌ c s) h = rw h h

  rstrip_idem : (s : String) → rstrip_underscores (rstrip_underscores s) ≡ rstrip_underscores s
  unfolding rstrip_underscores
  rstrip_idem String.[] = refl
  rstrip_idem (String.◌∷◌ c s) =
      elim (Bool-cases (eqb (code c) b'_' && rstrip_underscores s == "")) [
        | inl e ↦ rw e refl
        | inr f ↦ rw (f, rstrip_idem s, f) refl
      ]

  if_IsToken :
      (t : String)
      → AreWords t
      → Starts t
      → rstrip_underscores t ≡ t
      → IsToken (if t == "" then "unknown" else t)
  unfolding rstrip_underscores is_word
  if_IsToken t w l r = elim (Bool-cases (t == "")) [
    | inl e ↦ rw e (refl, (refl, (refl, (refl, (refl, (refl, (refl, (refl, tt))))))), refl, refl)
    | inr f ↦ rw f (f, w, l, r)
  ]

  -- Whatever the router gives as the id of a mesh node, the token in its entities' unique ids is not empty,
  -- holds letters, digits and underscores only, and has no underscore at its ends.
  pub sanitize_mesh_id-IsToken : (value : String) → IsToken (sanitize_mesh_id letters value)
  unfolding sanitize_mesh_id
  sanitize_mesh_id-IsToken value =
      let text = replace b':' underscore (replace b'-' underscore (strip value)) in
      let inner = lstrip_underscores (replace_runs letters false text) in
      if_IsToken (rstrip_underscores inner)
        (rstrip-AreWords inner (lstrip-AreWords _ (replace_runs-AreWords false text)))
        (rstrip-Starts inner (lstrip-Starts (replace_runs letters false text))) (rstrip_idem inner)

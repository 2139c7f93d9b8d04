-- ===== src/Domains/Steps.antt =====
-- What a sequence of calls sends.
use keenetic_router_pro.Transport.Http.{Client, Request, Result, ok, err}
use keenetic_router_pro.Transport.Sending.{Sends, Grown-trans}
use keenetic_router_pro.Domains.{and_then}

module _ {P : Request → Type 0} where
  pub and_then-Sends {ℓ κ} :
      {A : Type ℓ} {B : Type κ} (c : Client) (out : Result A × Client)
      (f : A → Client → Result B × Client)
      → Sends P c out
      → ((a : A) (c : Client) → Sends P c (f a c))
      → Sends P c (and_then out f)
  and_then-Sends c (ok a, c') f h g = Grown-trans h (g a c')
  and_then-Sends c (err e, c') f h g = h

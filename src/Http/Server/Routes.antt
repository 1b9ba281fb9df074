-- ===== src/Http/Server/Routes.antt =====
-- http/http_server.cpp: which requests a route that has been added answers.
use lightnet.Common.{
  Bool-cases, bytes_eq, bytes_eq_refl, bytes_eq→eq, All, ℕ, ◌≡◌, refl, sym, ap, ◌∙◌, ◌≢◌, inl, inr,
  some, List, [], ◌∷◌, ◌++◌,
}
use lightnet.Http.Message.{HttpRequest}
use lightnet.Http.Server.{Handler, Routes, route_key, find_route, set_route, add_route, dispatch}

find_route-set_route :
    (key : List ℕ) (h : Handler) (routes : Routes)
    → find_route key (set_route key h routes) ≡ some h
unfolding find_route set_route
find_route-set_route key h [] = rw (bytes_eq_refl key) refl
find_route-set_route key h ((k, g) ∷ rest) = elim (Bool-cases (bytes_eq k key)) [
  | inl same ↦ rw same (rw (bytes_eq_refl key) refl)
  | inr differs ↦ rw differs (rw differs (find_route-set_route key h rest))
]

find_route-set_route_other :
    (key other : List ℕ) (h : Handler) (routes : Routes)
    → key ≢ other
    → find_route other (set_route key h routes) ≡ find_route other routes
unfolding find_route set_route
find_route-set_route_other key other h [] ne = elim (Bool-cases (bytes_eq key other)) [
  | inl same ↦ absurd (ne (bytes_eq→eq key other same))
  | inr differs ↦ rw differs refl
]
find_route-set_route_other key other h ((k, g) ∷ rest) ne = elim (Bool-cases (bytes_eq k key)) [
  | inl here ↦ elim (Bool-cases (bytes_eq k other)) [
    | inl same ↦ absurd (ne (sym (bytes_eq→eq k key here) ∙ bytes_eq→eq k other same))
    | inr differs ↦ elim (Bool-cases (bytes_eq key other)) [
      | inl same ↦ absurd (ne (bytes_eq→eq key other same))
      | inr differs' ↦ rw here (rw (differs, differs') refl)
    ]
  ]
  | inr there ↦ elim (Bool-cases (bytes_eq k other)) [
    | inl same ↦ rw there (rw same refl)
    | inr differs ↦ rw there (rw differs (find_route-set_route_other key other h rest ne))
  ]
]

-- The method ends at the first space of a key.
abbrev IsWord : List ℕ → Type 0
IsWord m = All (λ c. c ≢ b' ') m

route_key-injective :
    (m n p q : List ℕ) → IsWord m → IsWord n → m ++ (b' ' ∷ p) ≡ n ++ (b' ' ∷ q) → (m ≡ n) × (p ≡ q)
route_key-injective [] [] p q w v e = (refl, cc e)
route_key-injective [] (d ∷ n) p q w (ne, v) e = absurd (ne (sym (cc e)))
route_key-injective (c ∷ m) [] p q (ne, w) v e = absurd (ne (cc e))
route_key-injective (c ∷ m) (d ∷ n) p q (_, w) (_, v) e =
    let head : c ≡ d = cc e in
    let tail : m ++ (b' ' ∷ p) ≡ n ++ (b' ' ∷ q) = cc e in
    let (me, pe) = route_key-injective m n p q w v tail in ((λ i. head i ∷ me i), pe)

-- After a route has been added, a request with its method and path is answered by its handler,
-- whatever was there before; and every request with another path, or with another method, where
-- neither method has a space in it, is answered as it was before.
pub dispatch-add_route :
    (method path : List ℕ) (h : Handler) (routes : Routes) (req : HttpRequest)
    → IsWord method
    → IsWord req.method
    → ((req.method ≡ method) × (req.path ≡ path)
        → dispatch (add_route method path h routes) req ≡ h req)
      × (¬ ((req.method ≡ method) × (req.path ≡ path))
          → dispatch (add_route method path h routes) req ≡ dispatch routes req)
unfolding dispatch add_route route_key
dispatch-add_route method path h routes req w v = (
  λ same.
      let e : req.method ++ (b' ' ∷ req.path) ≡ method ++ (b' ' ∷ path) =
        (λ i. same.0 i ++ (b' ' ∷ same.1 i)) in
      let f : find_route (req.method ++ (b' ' ∷ req.path))
            (set_route (method ++ (b' ' ∷ path)) h routes)
          ≡ some h =
        ap (λ (k : List ℕ). find_route k (set_route (method ++ (b' ' ∷ path)) h routes)) e
        ∙ find_route-set_route (method ++ (b' ' ∷ path)) h routes in
      rw (f, dispatch) refl,
  λ other.
      let f : find_route (req.method ++ (b' ' ∷ req.path))
            (set_route (method ++ (b' ' ∷ path)) h routes)
          ≡ find_route (req.method ++ (b' ' ∷ req.path)) routes =
        find_route-set_route_other (method ++ (b' ' ∷ path)) (req.method ++ (b' ' ∷ req.path)) h
          routes
          (λ e.
            let (m, p) = route_key-injective method req.method path req.path w v e in
            other (sym m, sym p)) in
      rw (f, dispatch) refl,
)

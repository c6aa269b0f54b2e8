-- ===== src/Node/Resolved.antt =====
-- What the loop over the domains of a plugin reaches: every domain resolved, every address kept.
use remnawave_node_go.Base.{
  ◌≡◌, refl, ap, ◌∙◌, Bool, true, false, ◌||◌, Option, none, some, List, [], ◌∷◌, ◌++◌, arith, All,
  Text, text_eq, text_eq_iff, text_eq_refl, subst, Result, ok, >>=-eq-ok, Bool-cases, inl, inr,
}
use remnawave_node_go.Runtime.Types.{set}
use remnawave_node_go.Node.Lists.{holds}
use remnawave_node_go.Node.Plugin.{
  DomainResolution, Compiling, find_resolution, resolve_domain, resolve_domains,
}

abbrev pub Resolutions : Type 0
Resolutions = List (Text × DomainResolution)

abbrev pub is_found : Option DomainResolution → Bool
is_found none = false
is_found (some r) = true

-- The texts are all there.
abbrev pub Within : List Text → List Text → Type 0
Within all = All (λ a. holds all a ≡ true)

abbrev pub Held : List Text → Resolutions → Type 0
Held all = All (λ e. Within all e.1.addresses)

holds-append : (xs ys : List Text) (t : Text) → holds (xs ++ ys) t ≡ (holds xs t || holds ys t)
unfolding holds
holds-append [] ys t = refl
holds-append (x ∷ xs) ys t = ground (arith, holds-append xs ys t)

Within-append : (all more ts : List Text) → Within all ts → Within (all ++ more) ts
Within-append all more [] k = tt
Within-append all more (t ∷ ts) k =
    (holds-append all more t ∙ simp k.0 refl, Within-append all more ts k.1)

pub Within-of :
    (all ts : List Text) → ((t : Text) → holds ts t ≡ true → holds all t ≡ true) → Within all ts
unfolding holds
Within-of all [] f = tt
Within-of all (t ∷ ts) f =
    (f t (simp (text_eq_refl t) refl), Within-of all ts (λ a h. f a (ground (arith, h))))

Within-self : (before ts : List Text) → Within (before ++ ts) ts
Within-self before ts =
    Within-of (before ++ ts) ts (λ t h. holds-append before ts t ∙ ground (arith, h))

Held-append : (all more : List Text) (out : Resolutions) → Held all out → Held (all ++ more) out
Held-append all more [] k = tt
Held-append all more (e ∷ out) k =
    (Within-append all more e.1.addresses k.0, Held-append all more out k.1)

Held-set :
    (all : List Text) (out : Resolutions) (d : Text) (r : DomainResolution)
    → Within all r.addresses
    → Held all out
    → Held all (set out d r)
unfolding set
Held-set all [] d r h k = (h, tt)
Held-set all ((j, s) ∷ out) d r h k = elim (Bool-cases (text_eq j d)) [
  | inl same ↦ simp same (h, k.1)
  | inr other ↦ simp other (k.0, Held-set all out d r h k.1)
]

found-set :
    (out : Resolutions) (d e : Text) (r : DomainResolution)
    → is_found (find_resolution (set out d r) e) ≡ (text_eq d e || is_found (find_resolution out e))
unfolding set find_resolution
found-set [] d e r = elim (Bool-cases (text_eq d e)) [
  | inl here ↦ simp here refl
  | inr there ↦ simp there refl
]
found-set ((j, s) ∷ out) d e r =
    let ih = found-set out d e r in
    elim (Bool-cases (text_eq j d)) [
      | inl same ↦
          let as_d : text_eq j e ≡ text_eq d e =
            ap (λ (x : Text). text_eq x e) ((text_eq_iff j d).0 same) in
          simp (same, as_d)
            (elim (Bool-cases (text_eq d e)) [
              | inl here ↦ simp here refl
              | inr there ↦ simp there refl
            ])
      | inr other ↦ simp other (elim (Bool-cases (text_eq j e)) [
        | inl hit ↦ simp hit (ground arith)
        | inr miss ↦ simp miss ih
      ])
    ]

pub value_of : {A : Type 0} {x y : A} → ◌≡◌ {A = Result A} (ok x) (ok y) → x ≡ y
value_of h = cc

-- What the loop over the domains keeps and reaches.
pub record Resolved (domains resolved : List Text) (out : Resolutions) (from : List Text)
    (before : Resolutions) : Type 0 where
  pub held : Held resolved out
  pub found : All (λ d. is_found (find_resolution out d) ≡ true) domains
  pub grown : (t : Text) → holds from t ≡ true → holds resolved t ≡ true
  pub still :
      (d : Text)
      → is_found (find_resolution before d) ≡ true
      → is_found (find_resolution out d) ≡ true

module _ (k : Compiling) (previous : Resolutions) where
  pub resolve_domains-Resolved :
      (ds from : List Text) (before : Resolutions) (resolved : List Text) (out : Resolutions)
      → Held from before
      → resolve_domains k previous ds from before ≡ ok (resolved, out)
      → Resolved ds resolved out from before
  unfolding resolve_domains
  resolve_domains-Resolved [] from before resolved out held h = record {
    held = subst (λ (x : List Text × Resolutions). Held x.0 x.1) (value_of h) held;
    found = tt;
    grown = λ t g. subst (λ (x : List Text × Resolutions). holds x.0 t ≡ true) (value_of h) g;
    still = λ d g.
        subst (λ (x : List Text × Resolutions). is_found (find_resolution x.1 d) ≡ true)
          (value_of h) g;
  }
  resolve_domains-Resolved (d ∷ ds) from before resolved out held h =
      let (status, e, rest) =
        >>=-eq-ok (resolve_domain k previous d)
          (λ status. resolve_domains k previous ds (from ++ status.addresses) (set before d status))
          h in
      let later =
        resolve_domains-Resolved ds (from ++ status.addresses) (set before d status) resolved out
          (Held-set (from ++ status.addresses) before d status (Within-self from status.addresses)
            (Held-append from status.addresses before held))
          rest in
      record {
        held = later.held;
        found =
            (later.still d (found-set before d d status ∙ simp (text_eq_refl d) refl), later.found);
        grown = λ t g. later.grown t (holds-append from status.addresses t ∙ simp g refl);
        still = λ e g. later.still e (found-set before d e status ∙ ground (arith, g));
      }

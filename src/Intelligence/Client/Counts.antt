-- ===== src/Intelligence/Client/Counts.antt =====
-- apps/web/intelligence/client.ts: how many requests of an id are pending, and how many are settled.
use terminus_web.Prelude.{
  ℕ, ◌+◌, ◌≡◌, refl, ap, inl, inr, true, false, List, [], ◌∷◌, ◌++◌, map, is_some, Text, text_eq,
  text_eq_iff, text_eq_self, Bool-cases, if◌then◌else◌, arith,
}
use terminus_web.Intelligence.Client.{Pending, Action, resolves, rejects, reject_pending}
use terminus_web.Intelligence.Client.Steps.{find, remove, put}

abbrev pub same : Text → Text → ℕ
same id t = if text_eq id t then 1 else 0

-- How many of the requests that are pending bear the id `t`.
abbrev pub count : Text → List Pending → ℕ
count t [] = 0
count t (p ∷ ps) = same p.id t + count t ps

abbrev pub settles : Text → Action → ℕ
settles t (resolves id v) = same id t
settles t (rejects id error) = same id t
settles t _ = 0

-- How often a request of the id `t` is resolved or rejected.
abbrev pub settlements : Text → List Action → ℕ
settlements t [] = 0
settlements t (x ∷ xs) = settles t x + settlements t xs

pub settlements-append :
    (t : Text) (xs ys : List Action)
    → settlements t (xs ++ ys) ≡ settlements t xs + settlements t ys
settlements-append t [] ys = omega arith
settlements-append t (x ∷ xs) ys = omega (arith, settlements-append t xs ys)

pub settlements-reject_pending :
    (t : Text) (ps : List Pending) → settlements t (map reject_pending ps) ≡ count t ps
settlements-reject_pending t [] = refl
settlements-reject_pending t (p ∷ ps) = omega (arith, settlements-reject_pending t ps)

pub same_id : (a b t : Text) → text_eq a b ≡ true → same a t ≡ same b t
same_id a b t e = ap (λ x. same x t) ((text_eq_iff a b).0 e)

pub count-remove :
    (t id : Text) (ps : List Pending)
    → is_some (find id ps) ≡ true
    → count t ps ≡ same id t + count t (remove id ps)
unfolding find remove
count-remove t id [] h = ground arith
count-remove t id (p ∷ ps) h = elim (Bool-cases (text_eq p.id id)) [
  | inl e ↦ rw e (omega (arith, same_id p.id id t e))
  | inr e ↦ rw e (omega (arith, count-remove t id ps (rw e at h)))
]

pub count-put :
    (t : Text) (p : Pending) (ps : List Pending)
    → is_some (find p.id ps) ≡ false
    → count t (put p ps) ≡ same p.id t + count t ps
unfolding find put
count-put t p [] h = refl
count-put t p (q ∷ qs) h = elim (Bool-cases (text_eq q.id p.id)) [
  | inl e ↦ cc (rw e at h)
  | inr e ↦ rw e (omega (arith, count-put t p qs (rw e at h)))
]

pub remove-put :
    (p : Pending) (ps : List Pending) → is_some (find p.id ps) ≡ false → remove p.id (put p ps) ≡ ps
unfolding find put remove
remove-put p [] h = rw (text_eq_self p.id) refl
remove-put p (q ∷ qs) h = elim (Bool-cases (text_eq q.id p.id)) [
  | inl e ↦ cc (rw e at h)
  | inr e ↦ rw (e, e, remove-put p qs (rw e at h)) refl
]

-- ===== src/Acl/Templates.antt =====
-- What the templates of serve_casbin.go expand to, and whom the guard lets pass.
use allino.Base.{
  ℕ, ◌==◌, ◌≡◌, refl, ap, sym, ◌∙◌, Bool, true, false, List, [], ◌∷◌, ◌++◌, Option, none, some,
  if◌then◌else◌, Bool-cases, Option-cases, inl, inr, ◌⊎◌, append_assoc, append-nil,
}
use allino.Base.Bytes.{Bytes, bytes_eq, codes}
use allino.Acl.{
  Vars, lookup_var, continues, is_empty, colon, open_brace, close_brace, Expanded, prepend,
  replaced, expand_braces, expand_colons, expand_acl_template, Verdict, allowed, AclCall,
  verdict_of, enforce_acl,
}

-- A text without a byte.
abbrev pub Lacks : ℕ → Bytes → Type 0
Lacks b [] = Unit
Lacks b (c ∷ s) = ((c == b) ≡ false) × Lacks b s

-- A part of a template: a text, or a variable in braces.
pub data Part : Type 0 where
  text : Bytes → Part
  braced : Bytes → Part

abbrev pub render_part : Part → Bytes
render_part (text t) = t
render_part (braced name) = open_brace ∷ (name ++ close_brace ∷ [])

unfoldable pub render : List Part → Bytes
render [] = []
render (p ∷ ps) = render_part p ++ render ps

-- The characters go on from what stands before them.
abbrev pub GoesOn : Bytes → Bytes → Type 0
GoesOn before [] = Unit
GoesOn before (c ∷ s) = (continues before c ≡ true) × GoesOn (before ++ c ∷ []) s

-- A text without special characters, or a variable with a value without a colon.
abbrev pub IsPlain : Vars → Part → Type 0
IsPlain vars (text t) = Lacks open_brace t × Lacks colon t
IsPlain vars (braced name) =
    (is_empty name ≡ false)
    × GoesOn [] name
    × ((v : Bytes) × (lookup_var name vars ≡ some v) × Lacks colon v)

abbrev pub ArePlain : Vars → List Part → Type 0
ArePlain vars [] = Unit
ArePlain vars (p ∷ ps) = IsPlain vars p × ArePlain vars ps

abbrev pub value_of : Option Bytes → Bytes
value_of none = []
value_of (some v) = v

abbrev pub fill_part : Vars → Part → Bytes
fill_part vars (text t) = t
fill_part vars (braced name) = value_of (lookup_var name vars)

unfoldable pub fill : Vars → List Part → Bytes
fill vars [] = []
fill vars (p ∷ ps) = fill_part vars p ++ fill vars ps

braces-text :
    (vars : Vars) (t s : Bytes)
    → Lacks open_brace t
    → expand_braces vars none (t ++ s) ≡ prepend t (expand_braces vars none s)
unfolding expand_braces
braces-text vars [] s h = refl
braces-text vars (c ∷ t) s (n, h) = rw n (ap (prepend (c ∷ [])) (braces-text vars t s h))

closes : (name : Bytes) → continues name close_brace ≡ false
closes [] = refl
closes (c ∷ name) = refl

braces-close :
    (vars : Vars) (name s : Bytes)
    → is_empty name ≡ false
    → expand_braces vars (some name) (close_brace ∷ s)
      ≡ replaced vars name (open_brace ∷ name ++ close_brace ∷ []) (expand_braces vars none s)
unfolding expand_braces
braces-close vars name s e = rw (closes name, e) refl

braces-name :
    (vars : Vars) (before name whole s : Bytes)
    → before ++ name ≡ whole
    → GoesOn before name
    → is_empty whole ≡ false
    → expand_braces vars (some before) (name ++ close_brace ∷ s)
      ≡ replaced vars whole (open_brace ∷ whole ++ close_brace ∷ []) (expand_braces vars none s)
unfolding expand_braces
braces-name vars before [] whole s q g e =
    let same = sym (append-nil before) ∙ q in
    ap (λ n. expand_braces vars (some n) (close_brace ∷ s)) same ∙ braces-close vars whole s e
braces-name vars before (c ∷ name) whole s q (k, g) e =
    rw k
      (braces-name vars (before ++ c ∷ []) name whole s (append_assoc before (c ∷ []) name ∙ q) g e)

replaced_by :
    (vars : Vars) (name match v : Bytes) (rest : Expanded)
    → lookup_var name vars ≡ some v
    → replaced vars name match rest ≡ prepend v rest
unfolding replaced
replaced_by vars name match v rest h = rw (replaced, h)

braces-render :
    (vars : Vars) (ps : List Part)
    → ArePlain vars ps
    → expand_braces vars none (render ps) ≡ (fill vars ps, false)
unfolding expand_braces render fill
braces-render vars [] h = refl
braces-render vars (text t ∷ ps) ((a, b), h) =
    braces-text vars t (render ps) a ∙ ap (prepend t) (braces-render vars ps h)
braces-render vars (braced name ∷ ps) ((e, g, (v, f, n)), h) =
    ap (expand_braces vars (some [])) (append_assoc name (close_brace ∷ []) (render ps))
    ∙ braces-name vars [] name name (render ps) refl g e
    ∙ replaced_by vars name (open_brace ∷ name ++ close_brace ∷ []) v
        (expand_braces vars none (render ps)) f
    ∙ ap (prepend v) (braces-render vars ps h)
    ∙ ap (λ o. (value_of o ++ fill vars ps, false)) (sym f)

Lacks-append : (b : ℕ) (s t : Bytes) → Lacks b s → Lacks b t → Lacks b (s ++ t)
Lacks-append b [] t h k = k
Lacks-append b (c ∷ s) t (n, h) k = (n, Lacks-append b s t h k)

fill-Lacks : (vars : Vars) (ps : List Part) → ArePlain vars ps → Lacks colon (fill vars ps)
unfolding fill
fill-Lacks vars [] h = tt
fill-Lacks vars (text t ∷ ps) ((a, b), h) =
    Lacks-append colon t (fill vars ps) b (fill-Lacks vars ps h)
fill-Lacks vars (braced name ∷ ps) ((e, g, (v, f, n)), h) =
    Lacks-append colon (value_of (lookup_var name vars)) (fill vars ps) (rw f n)
      (fill-Lacks vars ps h)

colons-Lacks : (vars : Vars) (s : Bytes) → Lacks colon s → expand_colons vars none s ≡ (s, false)
unfolding expand_colons
colons-Lacks vars [] h = refl
colons-Lacks vars (c ∷ s) (n, h) = rw n (ap (prepend (c ∷ [])) (colons-Lacks vars s h))

-- A template of texts without an opening brace or a colon, and of names in braces that have a
-- value without a colon, expands to the texts with the values in their places.
pub expand_acl_template-fill :
    (vars : Vars) (ps : List Part)
    → ArePlain vars ps
    → expand_acl_template (render ps) vars ≡ some (fill vars ps)
unfolding expand_acl_template
expand_acl_template-fill vars ps h =
    rw (braces-render vars ps h, colons-Lacks vars (fill vars ps) (fill-Lacks vars ps h))

-- What lets a call pass: it asks for no resource, or the engine says so for its user, its tenant,
-- which is not empty, and the expanded resource and action.
abbrev pub Granted : AclCall → Verdict → Type 0
Granted c allowed =
    (bytes_eq c.resource [] ≡ true)
    ⊎ ((enforce : Bytes → Bytes → Bytes → Bytes → Option Bool) × (uid : Bytes) × (tenant : Bytes)
        × (resource : Bytes) × (action : Bytes) × (c.enforcer ≡ some enforce)
        × (c.user ≡ some uid)
        × (c.tenant ≡ some tenant)
        × (bytes_eq tenant [] ≡ false)
        × (expand_acl_template c.resource c.vars ≡ some resource)
        × (expand_acl_template c.action c.vars ≡ some action)
        × (enforce tenant uid resource (if bytes_eq action [] then codes "access" else action)
            ≡ some true))
Granted c _ = Unit

engine-Granted :
    (c : AclCall) (enforce : Bytes → Bytes → Bytes → Bytes → Option Bool)
    (uid tenant resource action : Bytes) (answer : Option Bool)
    → c.enforcer ≡ some enforce
    → c.user ≡ some uid
    → c.tenant ≡ some tenant
    → bytes_eq tenant [] ≡ false
    → expand_acl_template c.resource c.vars ≡ some resource
    → expand_acl_template c.action c.vars ≡ some action
    → enforce tenant uid resource (if bytes_eq action [] then codes "access" else action) ≡ answer
    → Granted c (verdict_of answer)
engine-Granted c enforce uid tenant resource action none a b d e f g h = tt
engine-Granted c enforce uid tenant resource action (some false) a b d e f g h = tt
engine-Granted c enforce uid tenant resource action (some true) a b d e f g h =
    inr (enforce, uid, tenant, resource, action, a, b, d, e, f, g, h)

abbrev call :
    Bytes
    → Bytes
    → Option (Bytes → Bytes → Bytes → Bytes → Option Bool)
    → Option Bytes
    → Option Bytes
    → Vars
    → AclCall
call resource action enforcer user tenant vars = record {
  resource = resource;
  action = action;
  enforcer = enforcer;
  user = user;
  tenant = tenant;
  vars = vars;
}

granted :
    (resource action : Bytes) (enforcer : Option (Bytes → Bytes → Bytes → Bytes → Option Bool))
    (user tenant : Option Bytes) (vars : Vars)
    → bytes_eq resource [] ≡ false
    → Granted
        (call resource action enforcer user tenant vars)
        (enforce_acl (call resource action enforcer user tenant vars))
unfolding enforce_acl
granted resource action none user tenant vars n = rw n tt
granted resource action (some enforce) none tenant vars n = rw n tt
granted resource action (some enforce) (some uid) none vars n = rw n tt
granted resource action (some enforce) (some uid) (some tenant) vars n =
    rw n (elim (Bool-cases (bytes_eq tenant [])) [
      | inl e ↦ rw e tt
      | inr e ↦ rw e (elim (Option-cases (expand_acl_template resource vars)) [
        | inl r ↦ rw r tt
        | inr (res, r) ↦ rw r (elim (Option-cases (expand_acl_template action vars)) [
          | inl a ↦ rw a tt
          | inr (act, a) ↦ rw a (
              engine-Granted (call resource action (some enforce) (some uid) (some tenant) vars)
                enforce uid tenant res act
                (enforce tenant uid res (if bytes_eq act [] then codes "access" else act)) refl refl
                refl e r a refl)
        ])
      ])
    ])

-- A call passes the guard only where it asks for no resource, or where there is an engine, a
-- user and a tenant that is not empty, the templates of its resource and its action expand, and
-- the engine allows the user of the tenant the expanded action, or "access" where that is
-- empty, on the expanded resource.
pub enforce_acl-Granted : (c : AclCall) → Granted c (enforce_acl c)
unfolding enforce_acl
enforce_acl-Granted c = elim (Bool-cases (bytes_eq c.resource [])) [
  | inl e ↦ rw e (inl e)
  | inr n ↦ granted c.resource c.action c.enforcer c.user c.tenant c.vars n
]

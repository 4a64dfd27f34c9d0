-- ===== src/Di/Overrides/Laws.antt =====
-- What substituting overrides does to the list of providers.
use mathlib.Core.List.{Memᴰ}
use btravstack.Common.{
  ℕ, ◌≡◌, ◌≢◌, refl, sym, ap, ◌∙◌, String, Bool, true, false, ◌⊎◌, inl, inr, none, some, List, [],
  ◌∷◌, ok, get, set, get-set, ◌==◌, nat_eq, string_eq, keep, elem, arith, subst, keep-true,
  keep-false, >>=-eq-ok, Bool-cases, Option-cases, beq_refl, eq_of_beq,
}
use btravstack.Di.{Provider}
use btravstack.Di.Flatten.{id_of, refs, IsDistinct}
use btravstack.Di.Overrides.{
  check_overrides, override_map, substitute_one, substitute, overrides_of, resolve_overrides,
}

elem-head : (i : String) (is : List String) → elem i (i ∷ is) ≡ true
elem-head i is = rw (beq_refl i) refl

pub absent_of_not : {b : Bool} → (b ≡ true → ⊥) → b ≡ false
absent_of_not {b} h = elim (Bool-cases b) [ inl e ↦ absurd (h e) | inr e ↦ e ]

module _ {V E : Type 0} where
  pub elem-mem :
      (p : Provider V E) (ps : List (Provider V E)) → Memᴰ p ps → elem p.ref (refs ps) ≡ true
  elem-mem p [] m = elim m [ ]
  elem-mem p (q ∷ ps) (Memᴰ.head e) = rw (← e, beq_refl p.ref) refl
  elem-mem p (q ∷ ps) (Memᴰ.tail m) = ground (arith, elem-mem p ps m)

  -- A reference tells a provider.
  eq_of_ref :
      (p q : Provider V E) (ps : List (Provider V E))
      → IsDistinct ps
      → Memᴰ p ps
      → Memᴰ q ps
      → p.ref ≡ q.ref
      → p ≡ q
  eq_of_ref p q [] d m n h = elim m [ ]
  eq_of_ref p q (x ∷ ps) (new, d) (Memᴰ.head e) (Memᴰ.head f) h = e ∙ sym f
  eq_of_ref p q (x ∷ ps) (new, d) (Memᴰ.head e) (Memᴰ.tail m) h =
      cc (ap (λ (y : Provider V E). y.ref) e, elem-mem q ps m)
  eq_of_ref p q (x ∷ ps) (new, d) (Memᴰ.tail m) (Memᴰ.head f) h =
      cc (ap (λ (y : Provider V E). y.ref) f, elem-mem p ps m)
  eq_of_ref p q (x ∷ ps) (new, d) (Memᴰ.tail m) (Memᴰ.tail n) h = eq_of_ref p q ps d m n h

  -- Every provider that the map holds is one of the overrides, under its own id.
  override_map-mem :
      (id : String) (o : Provider V E) (m : List (String × Provider V E)) (os : List (Provider V E))
      → get id (override_map m os) ≡ some o
      → (get id m ≡ some o) ⊎ (Memᴰ o os × (id_of o ≡ id))
  unfolding override_map
  override_map-mem id o m [] h = inl h
  override_map-mem id o m (x ∷ os) h = elim (override_map-mem id o (set (id_of x) x m) os h) [
    | inr (mem, e) ↦ inr (Memᴰ.tail mem, e)
    | inl e ↦ elim (Bool-cases (id_of x == id)) [
      | inl same ↦
          let e' : some x ≡ some o = rw (get-set (id_of x) id x m, same) at e in
          let x-o : x ≡ o = cc e' in
          inr (Memᴰ.head (sym x-o), rw (← x-o) (eq_of_beq (id_of x) id same))
      | inr other ↦ inl (rw (get-set (id_of x) id x m, other) at e)
    ]
  ]

  pub mem-keep :
      (f : Provider V E → Bool) (p : Provider V E) (ps : List (Provider V E))
      → Memᴰ p (keep f ps)
      → Memᴰ p ps × (f p ≡ true)
  mem-keep f p [] m = elim m [ ]
  mem-keep f p (q ∷ ps) m = elim (Bool-cases (f q)) [
    | inl h ↦ mem-cons_kept (mem-keep f p ps) q h (subst (Memᴰ p) (keep-true f q ps h) m)
    | inr h ↦
        let (mem, e) = mem-keep f p ps (subst (Memᴰ p) (keep-false f q ps h) m) in
        (Memᴰ.tail mem, e)
  ]
    where
      mem-cons_kept :
          (later : Memᴰ p (keep f ps) → Memᴰ p ps × (f p ≡ true)) (q : Provider V E)
          → f q ≡ true
          → Memᴰ p (q ∷ keep f ps)
          → Memᴰ p (q ∷ ps) × (f p ≡ true)
      mem-cons_kept later q h (Memᴰ.head e) = (Memᴰ.head e, rw e h)
      mem-cons_kept later q h (Memᴰ.tail mem) = (Memᴰ.tail (later mem).0, (later mem).1)

  -- What the substitution reads of the map: entries stand under their own ids, are one for each
  -- object, and are no base of the list.
  record IsSource (m : List (String × Provider V E)) (ps : List (Provider V E)) : Type 0 where
    single :
        (i j : String) (o q : Provider V E)
        → get i m ≡ some o
        → get j m ≡ some q
        → o.ref ≡ q.ref
        → i ≡ j
    apart :
        (i : String) (o p : Provider V E)
        → get i m ≡ some o
        → Memᴰ p ps
        → p.is_override ≡ false
        → o.ref ≢ p.ref

  IsSource-tail :
      {m : List (String × Provider V E)} {p : Provider V E} {ps : List (Provider V E)}
      → IsSource m (p ∷ ps)
      → IsSource m ps
  IsSource-tail s = record {
    single = s.single;
    apart = λ i o p e mem. s.apart i o p e (Memᴰ.tail mem);
  }

  -- Where a reference in the result comes from.
  data Comes (m : List (String × Provider V E)) (sub : List String) (ps : List (Provider V E))
      (r : ℕ) : Type 0 where
    base : (p : Provider V E) → Memᴰ p ps → p.is_override ≡ false → p.ref ≡ r → Comes m sub ps r
    override :
        (i : String) (o : Provider V E)
        → get i m ≡ some o
        → elem i sub ≡ false
        → o.ref ≡ r
        → Comes m sub ps r

  Comes-tail :
      {m : List (String × Provider V E)} {sub : List String} {q : Provider V E}
      {ps : List (Provider V E)} {r : ℕ}
      → Comes m sub ps r
      → Comes m sub (q ∷ ps) r
  Comes-tail (base p mem b e) = base p (Memᴰ.tail mem) b e
  Comes-tail (override i o g n e) = override i o g n e

  Comes-less :
      {m : List (String × Provider V E)} {sub : List String} {ps : List (Provider V E)} {r : ℕ}
      (id : String)
      → Comes m (id ∷ sub) ps r
      → Comes m sub ps r
  Comes-less id (base p mem b e) = base p mem b e
  Comes-less id (override i o g n e) = override i o g (ground arith) e

  pub substitute-cases :
      (m : List (String × Provider V E)) (sub : List String) (p : Provider V E)
      (ps : List (Provider V E))
      → ((p.is_override ≡ true) × (substitute m sub (p ∷ ps) ≡ substitute m sub ps))
        ⊎ ((p.is_override ≡ false)
            × (substitute_one m sub p ≡ none)
            × (substitute m sub (p ∷ ps) ≡ p ∷ substitute m sub ps))
        ⊎ ((p.is_override ≡ false)
            × ((o : Provider V E) × (get (id_of p) m ≡ some o)
                × (elem (id_of p) sub ≡ false)
                × (substitute m sub (p ∷ ps) ≡ o ∷ substitute m (id_of p ∷ sub) ps)))
  unfolding substitute
  substitute-cases m sub p ps = elim (Bool-cases p.is_override) [
    | inl h ↦ inl (h, ground arith)
    | inr h ↦ inr (elim (Bool-cases (elem (id_of p) sub)) [
      | inl seen ↦ inl (h, ground arith, ground arith)
      | inr fresh ↦ elim (Option-cases (get (id_of p) m)) [
        | inl e ↦ inl (h, ground arith, ground arith)
        | inr (o, e) ↦ inr (h, (o, e, fresh, ground arith))
      ]
    ])
  ]

  elem-substitute :
      (m : List (String × Provider V E)) (sub : List String) (ps : List (Provider V E)) (r : ℕ)
      → elem r (refs (substitute m sub ps)) ≡ true
      → Comes m sub ps r
  unfolding substitute
  elem-substitute m sub [] r h = cc
  elem-substitute m sub (p ∷ ps) r h = elim (substitute-cases m sub p ps) [
    | inl (_, e) ↦ Comes-tail (elem-substitute m sub ps r (rw e at h))
    | inr (inl (b, _, e)) ↦ elim (Bool-cases (p.ref == r)) [
      | inl same ↦ base p (Memᴰ.head refl) b (eq_of_beq p.ref r same)
      | inr other ↦ Comes-tail (elem-substitute m sub ps r (rw other at (rw e at h)))
    ]
    | inr (inr (b, (o, g, fresh, e))) ↦ elim (Bool-cases (o.ref == r)) [
      | inl same ↦ override (id_of p) o g fresh (eq_of_beq o.ref r same)
      | inr other ↦
          Comes-tail (
            Comes-less (id_of p) (elem-substitute m (id_of p ∷ sub) ps r (rw other at (rw e at h))))
    ]
  ]

  substitute-IsDistinct :
      (m : List (String × Provider V E)) (sub : List String) (ps : List (Provider V E))
      → IsDistinct ps
      → IsSource m ps
      → IsDistinct (substitute m sub ps)
  unfolding substitute
  substitute-IsDistinct m sub [] d s = tt
  substitute-IsDistinct m sub (p ∷ ps) (new, d) s = elim (substitute-cases m sub p ps) [
    | inl (_, e) ↦ rw e (substitute-IsDistinct m sub ps d (IsSource-tail s))
    | inr (inl (b, _, e)) ↦ rw e (
      absent_of_not (λ h. kept_once b (elem-substitute m sub ps p.ref h)),
      substitute-IsDistinct m sub ps d (IsSource-tail s),
    )
    | inr (inr (b, (o, g, fresh, e))) ↦ rw e (
      absent_of_not (λ h. placed_once o g (elem-substitute m (id_of p ∷ sub) ps o.ref h)),
      substitute-IsDistinct m (id_of p ∷ sub) ps d (IsSource-tail s),
    )
  ]
    where
      kept_once : p.is_override ≡ false → Comes m sub ps p.ref → ⊥
      kept_once b (base q mem _ e) = cc (ap (λ r. elem r (refs ps)) e, elem-mem q ps mem)
      kept_once b (override i o g _ e) = s.apart i o p g (Memᴰ.head refl) b e

      placed_once :
          (o : Provider V E) → get (id_of p) m ≡ some o → Comes m (id_of p ∷ sub) ps o.ref → ⊥
      placed_once o g (base q mem b e) = s.apart (id_of p) o q g (Memᴰ.tail mem) b (sym e)
      placed_once o g (override i q h n e) =
          let same : id_of p ≡ i = s.single (id_of p) i o q g h (sym e) in
          cc (ap (λ j. elem j (id_of p ∷ sub)) same, elem-head (id_of p) sub, n)

  get-nil : (id : String) (o : Provider V E) → get id [] ≢ some o
  unfolding get
  get-nil id o e = cc

  pub overrides-mem :
      (i : String) (o : Provider V E) (ps : List (Provider V E))
      → get i (override_map [] (overrides_of ps)) ≡ some o
      → Memᴰ o ps × (o.is_override ≡ true) × (id_of o ≡ i)
  overrides-mem i o ps e = elim (override_map-mem i o [] (overrides_of ps) e) [
    | inl none_yet ↦ absurd (get-nil i o none_yet)
    | inr (mem, id) ↦ let (mem', over) = mem-keep _ o ps mem in (mem', over, id)
  ]

  overrides-IsSource :
      (ps : List (Provider V E)) → IsDistinct ps → IsSource (override_map [] (overrides_of ps)) ps
  overrides-IsSource ps d = record {
    single = λ i j o q e f same.
        let (mem_o, _, id_o) = overrides-mem i o ps e in
        let (mem_q, _, id_q) = overrides-mem j q ps f in
        sym id_o ∙ ap id_of (eq_of_ref o q ps d mem_o mem_q same) ∙ id_q;
    apart = λ i o p e mem base same.
        let (mem_o, over, _) = overrides-mem i o ps e in
        cc (
          over,
          base,
          ap (λ (x : Provider V E). x.is_override) (eq_of_ref o p ps d mem_o mem same),
        );
  }

  pub resolve_overrides-IsDistinct :
      (given resolved : List (Provider V E))
      → IsDistinct given
      → resolve_overrides given ≡ ok resolved
      → IsDistinct resolved
  unfolding resolve_overrides
  resolve_overrides-IsDistinct given resolved d e =
      let (_, _, same) = >>=-eq-ok (check_overrides given [] (overrides_of given)) _ e in
      let same' : substitute (override_map [] (overrides_of given)) [] given ≡ resolved =
        ground arith in
      subst IsDistinct same' (
        substitute-IsDistinct (override_map [] (overrides_of given)) [] given d
          (overrides-IsSource given d))

-- ===== src/Authentication/PrincipalCache/Invalidate.antt =====
-- `invalidate_user` of the principal cache, and the index by user that it relies on.
use starter_template_fastapi.Base.{
  ℕ, ◌≡◌, ◌≢◌, refl, sym, inl, inr, String, true, false, none, some, List, [], ◌∷◌, arith, str_eq,
  str_eq_iff, Bool-cases,
}
use mathlib.Core.Path.{subst}
use starter_template_fastapi.Base.Dict.{Dict, lookup, insert, member, lookup-insert, str_eq_self}
use starter_template_fastapi.Authentication.Models.{Principal}
use starter_template_fastapi.Authentication.PrincipalCache.{
  TtlCache, PrincipalCache, or_empty, add, without, get, set, pop, pop_all, invalidate_user, Reach,
  created, after_set, after_pop, after_invalidate,
}

-- What is relied on of the cache, which may also drop entries at any time: what it returns for a key
-- is what was last set for it, and a key that was popped is gone.
pub record IsTtlCache {C : Type 0} (ttl_cache : TtlCache C) : Type 0 where
  pub get-set_same :
      (k : String) (v p : Principal) (now t : ℕ) (c : C)
      → ttl_cache.get k t (ttl_cache.set k v now c) ≡ some p
      → p ≡ v
  pub get-set_other :
      (k j : String) (v p : Principal) (now t : ℕ) (c : C)
      → str_eq k j ≡ false
      → ttl_cache.get j t (ttl_cache.set k v now c) ≡ some p
      → ttl_cache.get j t c ≡ some p
  pub get-pop :
      (k j : String) (p : Principal) (now t : ℕ) (c : C)
      → ttl_cache.get j t (ttl_cache.pop k now c) ≡ some p
      → (str_eq k j ≡ false) × (ttl_cache.get j t c ≡ some p)

lookup-without :
    (k j : String) (d : Dict (List String))
    → str_eq k j ≡ false
    → lookup j (without k d) ≡ lookup j d
unfolding lookup without
lookup-without k j [] h = refl
lookup-without k j ((i, v) ∷ d) h =
    ground (arith, str_eq_iff k j, str_eq_iff i k, str_eq_iff i j, lookup-without k j d h)

member-add : (j k : String) (ks : List String) → member j ks ≡ true → member j (add k ks) ≡ true
member-add j k ks h = ground arith

member-add_self : (k : String) (ks : List String) → member k (add k ks) ≡ true
member-add_self k ks = ground (arith, str_eq_self k)

added_here :
    (u k : String) (ks : List String) (d : Dict (List String))
    → member k (or_empty (lookup u (insert u (add k ks) d))) ≡ true
added_here u k ks d = rw (lookup-insert u u (add k ks) d, str_eq_self u) (member-add_self k ks)

added_elsewhere :
    (u k u' j : String) (d : Dict (List String))
    → member j (or_empty (lookup u' d)) ≡ true
    → member j (or_empty (lookup u' (insert u (add k (or_empty (lookup u d))) d))) ≡ true
added_elsewhere u k u' j d h = elim (Bool-cases (str_eq u u')) [
  | inl hit ↦
      let same : u ≡ u' = (str_eq_iff u u').0 hit in
      rw (lookup-insert u u' (add k (or_empty (lookup u d))) d, hit)
        (member-add j k (or_empty (lookup u d))
          (subst (λ x. member j (or_empty (lookup x d)) ≡ true) (sym same) h))
  | inr miss ↦ rw (lookup-insert u u' (add k (or_empty (lookup u d))) d, miss) h
]

module _ {C : Type 0} (ttl_cache : TtlCache C) (str_uuid : ℕ → String)
    (laws : IsTtlCache ttl_cache) where
  -- Every entry is in the index of its user.
  abbrev pub Indexed : PrincipalCache C → Type 0
  Indexed s =
      (j : String) (t : ℕ) (p : Principal)
      → ttl_cache.get j t s.cache ≡ some p
      → member j (or_empty (lookup (str_uuid p.user_id) s.user_index)) ≡ true

  get-pop_all :
      (ids : List String) (j : String) (now t : ℕ) (c : C) (p : Principal)
      → ttl_cache.get j t (pop_all ttl_cache str_uuid ids now c) ≡ some p
      → (member j ids ≡ false) × (ttl_cache.get j t c ≡ some p)
  unfolding pop_all
  get-pop_all [] j now t c p e = (refl, e)
  get-pop_all (k ∷ ids) j now t c p e =
      let (rest, e') = get-pop_all ids j now t (ttl_cache.pop k now c) p e in
      let (ne, e'') = laws.get-pop k j p now t c e' in (ground (arith, rest, ne), e'')

  Indexed-set :
      (s : PrincipalCache C) (k : String) (v : Principal) (now : ℕ)
      → Indexed s
      → Indexed (set ttl_cache str_uuid k v now s)
  unfolding set
  Indexed-set s k v now h j t p e = elim (Bool-cases (str_eq k j)) [
    | inl hit ↦
        let same : k ≡ j = (str_eq_iff k j).0 hit in
        let latest : p ≡ v =
          laws.get-set_same k v p now t s.cache (
            subst (λ x. ttl_cache.get x t (ttl_cache.set k v now s.cache) ≡ some p) (sym same) e) in
        let here =
          added_here (str_uuid v.user_id) k (or_empty (lookup (str_uuid v.user_id) s.user_index))
            s.user_index in
        rw (latest, sym same) here
    | inr miss ↦
        added_elsewhere (str_uuid v.user_id) k (str_uuid p.user_id) j s.user_index
          (h j t p (laws.get-set_other k j v p now t s.cache miss e))
  ]

  -- What is left after an invalidation was there before, and is of another user.
  left :
      (s : PrincipalCache C) (user now : ℕ)
      → Indexed s
      → (j : String) (t : ℕ) (p : Principal)
      → ttl_cache.get j t (invalidate_user ttl_cache str_uuid user now s).cache ≡ some p
      → (str_eq (str_uuid user) (str_uuid p.user_id) ≡ false)
        × (member j (or_empty (lookup (str_uuid p.user_id) s.user_index)) ≡ true)
  unfolding invalidate_user
  left s user now h j t p e =
      let ids = or_empty (lookup (str_uuid user) s.user_index) in
      let (gone, e') = get-pop_all ids j now t s.cache p e in
      let listed = h j t p e' in
      (
        elim (Bool-cases (str_eq (str_uuid user) (str_uuid p.user_id))) [
          | inr miss ↦ miss
          | inl hit ↦
              let same : str_uuid user ≡ str_uuid p.user_id =
                (str_eq_iff (str_uuid user) (str_uuid p.user_id)).0 hit in
              let found : member j ids ≡ true =
                subst (λ x. member j (or_empty (lookup x s.user_index)) ≡ true) (sym same) listed in
              absurd (cc (gone, found))
        ],
        listed,
      )

  Indexed-invalidate :
      (s : PrincipalCache C) (user now : ℕ)
      → Indexed s
      → Indexed (invalidate_user ttl_cache str_uuid user now s)
  unfolding invalidate_user
  Indexed-invalidate s user now h j t p e =
      let (other, listed) = left s user now h j t p e in
      rw (lookup-without (str_uuid user) (str_uuid p.user_id) s.user_index other) listed

  Reach-Indexed : {s u : PrincipalCache C} → Reach ttl_cache str_uuid s u → Indexed s → Indexed u
  unfolding pop
  Reach-Indexed created h = h
  Reach-Indexed (after_set {t = t} k v now r) h = Indexed-set t k v now (Reach-Indexed r h)
  Reach-Indexed (after_pop {t = t} k now r) h =
      λ j n p e. Reach-Indexed r h j n p (laws.get-pop k j p now n t.cache e).1
  Reach-Indexed (after_invalidate {t = t} user now r) h =
      Indexed-invalidate t user now (Reach-Indexed r h)

  -- If the cache answers only what was last set and not popped, then from a cache that has no
  -- entries, and after any history of calls, once a user is invalidated no token is answered with
  -- that user, at whatever time it is asked for.
  pub get-invalidate_user :
      {s u : PrincipalCache C}
      → ((j : String) (t : ℕ) → ttl_cache.get j t s.cache ≡ none)
      → Reach ttl_cache str_uuid s u
      → (user now : ℕ) (j : String) (t : ℕ) (p : Principal)
      → get ttl_cache str_uuid j t (invalidate_user ttl_cache str_uuid user now u) ≡ some p
      → p.user_id ≢ user
  unfolding get
  get-invalidate_user {u = u} fresh r user now j t p e same =
      let indexed = Reach-Indexed r (λ k n q f. absurd (cc (fresh k n, f))) in
      let (other, _) = left u user now indexed j t p e in
      cc (other, str_eq_self (str_uuid user), same)

-- ===== src/Opcua/Security/Endpoints/Laws.antt =====
-- `dropUnencryptedEndpoints` keeps just the endpoints that are not unencrypted, in order.
use mathlib.Core.List.{append-nil}
use safeedge.Common.{
  subst, ℕ, zero, suc, ◌+◌, ◌≤◌, ◌<◌, ◌==◌, List, [], ◌∷◌, ◌++◌, length, take, set, get_or,
  length-set, take-set, All, true, false, ◌≡◌, refl, sym, ap, ◌∙◌, arith, Bool-cases, inl, inr,
}
use safeedge.Opcua.Security.{Endpoint, ServerConfig}
use safeedge.Opcua.Security.Endpoints.{
  Compaction, compact, compact_one, cleared, encrypted, is_unencrypted, drop_unencrypted_endpoints,
}

module _ {A : Type 0} where
  take-snoc :
      (n : ℕ) (xs : List A) (d : A)
      → n < length xs
      → take (suc n) xs ≡ take n xs ++ get_or xs n d ∷ []
  take-snoc n [] d h = absurd (omega arith)
  take-snoc zero (x ∷ xs) d h = refl
  take-snoc (suc n) (x ∷ xs) d h = ap (◌∷◌ x) (take-snoc n xs d (omega arith))

  take-set_later : (n i : ℕ) (xs : List A) (v : A) → n ≤ i → take n (set xs i v) ≡ take n xs
  take-set_later zero i xs v h = refl
  take-set_later (suc n) i [] v h = refl
  take-set_later (suc n) zero (x ∷ xs) v h = absurd (omega arith)
  take-set_later (suc n) (suc i) (x ∷ xs) v h = ap (◌∷◌ x) (take-set_later n i xs v (omega arith))

  get_or-set_before :
      (i j : ℕ) (xs : List A) (v d : A) → i < j → get_or (set xs i v) j d ≡ get_or xs j d
  get_or-set_before i j [] v d h = refl
  get_or-set_before zero zero (x ∷ xs) v d h = absurd (omega arith)
  get_or-set_before zero (suc j) (x ∷ xs) v d h = refl
  get_or-set_before (suc i) zero (x ∷ xs) v d h = absurd (omega arith)
  get_or-set_before (suc i) (suc j) (x ∷ xs) v d h = get_or-set_before i j xs v d (omega arith)

encrypted-append : (xs ys : List Endpoint) → encrypted (xs ++ ys) ≡ encrypted xs ++ encrypted ys
encrypted-append [] ys = refl
encrypted-append (x ∷ xs) ys = elim (Bool-cases (is_unencrypted x.security_mode)) [
  | inl e ↦ rw e (encrypted-append xs ys)
  | inr e ↦ rw e (ap (◌∷◌ x) (encrypted-append xs ys))
]

gone : (e : Endpoint) → is_unencrypted e.security_mode ≡ true → encrypted (e ∷ []) ≡ []
gone e h = rw h refl

stays : (e : Endpoint) → is_unencrypted e.security_mode ≡ false → encrypted (e ∷ []) ≡ e ∷ []
stays e h = rw h refl

-- After `i` rounds over `original`.
record Compacted (original : List Endpoint) (i : ℕ) (c : Compaction) : Type 0 where
  counted : c.kept + c.removed ≡ i
  same_length : length c.endpoints ≡ length original
  prefix : take c.kept c.endpoints ≡ encrypted (take i original)
  suffix : (j : ℕ) → i ≤ j → get_or c.endpoints j cleared ≡ get_or original j cleared

compact_one-Compacted :
    (original : List Endpoint) (i : ℕ) (c : Compaction)
    → i < length original
    → Compacted original i c
    → Compacted original (suc i) (compact_one c i)
unfolding compact_one
compact_one-Compacted original i c h v =
    let here = v.suffix i (omega arith) in
    let e = get_or c.endpoints i cleared in
    let longer : encrypted (take (suc i) original)
        ≡ encrypted (take i original) ++ encrypted (e ∷ []) =
      ap encrypted (take-snoc i original cleared h)
      ∙ (encrypted-append (take i original) (get_or original i cleared ∷ [])
          ∙ ap (λ (z : Endpoint). encrypted (take i original) ++ encrypted (z ∷ [])) (sym here)) in
    elim (Bool-cases (is_unencrypted e.security_mode)) [
      | inl drop_it ↦ rw drop_it record {
        counted = omega (arith, v.counted);
        same_length = length-set c.endpoints i cleared ∙ v.same_length;
        prefix =
            take-set_later c.kept i c.endpoints cleared (omega (arith, v.counted))
            ∙ (v.prefix
                ∙ sym (
                    longer
                    ∙ (ap (λ (ys : List Endpoint). encrypted (take i original) ++ ys)
                          (gone e drop_it)
                        ∙ append-nil (encrypted (take i original)))));
        suffix =
            λ j l. get_or-set_before i j c.endpoints cleared cleared l ∙ v.suffix j (omega arith);
      }
      | inr keep_it ↦
          let snoc : take c.kept c.endpoints ++ e ∷ [] ≡ encrypted (take (suc i) original) =
            ap (λ (ys : List Endpoint). ys ++ e ∷ []) v.prefix
            ∙ sym (
                longer
                ∙ ap (λ (ys : List Endpoint). encrypted (take i original) ++ ys)
                    (stays e keep_it)) in
          elim (Bool-cases (c.kept == i)) [
            | inl same ↦
                rw (keep_it, same)
                  record {
                    counted = omega (arith, v.counted);
                    same_length = v.same_length;
                    prefix =
                        take-snoc c.kept c.endpoints cleared (ground (arith, v.same_length))
                        ∙ (ap
                              (λ (k : ℕ).
                                take c.kept c.endpoints ++ get_or c.endpoints k cleared ∷ [])
                              (ground arith)
                            ∙ snoc);
                    suffix = λ j l. v.suffix j (omega arith);
                  }
            | inr moved ↦
                rw (keep_it, moved)
                  record {
                    counted = omega (arith, v.counted);
                    same_length = length-set c.endpoints c.kept e ∙ v.same_length;
                    prefix =
                        take-set c.endpoints c.kept e (omega (arith, v.counted, v.same_length))
                        ∙ snoc;
                    suffix = λ j l.
                        get_or-set_before c.kept j c.endpoints e cleared (omega (arith, v.counted))
                        ∙ v.suffix j (omega arith);
                  }
          ]
    ]

compact-Compacted :
    (rest i : ℕ) (original : List Endpoint) (c : Compaction)
    → i + rest ≤ length original
    → Compacted original i c
    → Compacted original (i + rest) (compact c i rest)
unfolding compact
compact-Compacted zero i original c h v =
    subst (λ (n : ℕ). Compacted original n c) (let e : i ≡ i + 0 = omega arith in e) v
compact-Compacted (suc rest) i original c h v =
    subst (λ (n : ℕ). Compacted original n (compact (compact_one c i) (suc i) rest))
      (let e : suc i + rest ≡ i + suc rest = omega arith in e)
      (compact-Compacted rest (suc i) original (compact_one c i) (omega arith)
        (compact_one-Compacted original i c (omega arith) v))

-- The endpoints that `dropUnencryptedEndpoints` leaves are those that do not use the mode None, in
-- their order; it returns how many it removed, and changes nothing else of the configuration. The
-- configuration's array is at least as long as its size.
pub drop_unencrypted_endpoints-encrypted :
    (config : ServerConfig)
    → config.endpoints_size ≤ length config.endpoints
    → let (config', removed) = drop_unencrypted_endpoints config in
      (take config'.endpoints_size config'.endpoints
        ≡ encrypted (take config.endpoints_size config.endpoints))
      × (config'.endpoints_size + removed ≡ config.endpoints_size)
      × (config' ≡ record config {
        endpoints = config'.endpoints;
        endpoints_size = config'.endpoints_size;
      })
unfolding drop_unencrypted_endpoints
drop_unencrypted_endpoints-encrypted config h =
    let start : Compaction = record { endpoints = config.endpoints; kept = 0; removed = 0 } in
    let begun : Compacted config.endpoints 0 start = record {
      counted = refl;
      same_length = refl;
      prefix = refl;
      suffix = λ j l. refl;
    } in
    let over =
      compact-Compacted config.endpoints_size 0 config.endpoints start (omega arith) begun in
    let all : 0 + config.endpoints_size ≡ config.endpoints_size = omega arith in
    (
      over.prefix ∙ ap (λ (n : ℕ). encrypted (take n config.endpoints)) all,
      over.counted ∙ all,
      refl,
    )

encrypted-All :
    (es : List Endpoint) → All (λ e. is_unencrypted e.security_mode ≡ false) (encrypted es)
encrypted-All [] = tt
encrypted-All (e ∷ es) = elim (Bool-cases (is_unencrypted e.security_mode)) [
  | inl h ↦ rw h (encrypted-All es)
  | inr h ↦ rw h (h, encrypted-All es)
]

-- None of those left is unencrypted.
pub drop-All :
    (config : ServerConfig)
    → config.endpoints_size ≤ length config.endpoints
    → let config' = (drop_unencrypted_endpoints config).0 in
      All
        (λ e. is_unencrypted e.security_mode ≡ false)
        (take config'.endpoints_size config'.endpoints)
drop-All config h =
    subst (λ (es : List Endpoint). All (λ e. is_unencrypted e.security_mode ≡ false) es)
      (sym (drop_unencrypted_endpoints-encrypted config h).0)
      (encrypted-All (take config.endpoints_size config.endpoints))

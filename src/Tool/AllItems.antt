-- ===== src/Tool/AllItems.antt =====
-- libjcat/jcat-tool.c: when `jcat_tool_verify` succeeds for a whole file.
use libjcat.Engine.Setup.{and_then-eq-ok}
use libjcat.File.{JcatFile}
use libjcat.Item.{JcatItem}
use libjcat.Json.{JsonGlib, Base64}
use libjcat.Kind.{JcatBlobKind}
use libjcat.Prelude.{
  ℕ, Bool, true, false, List, [], ◌∷◌, Bytes, Result, ok, err, Error, ok-injective, ◌≡◌, refl, sym,
  ap, ◌∙◌, ◌↔◌, ◌⊎◌, inl, inr,
}
use libjcat.System.{Gio}
use libjcat.Tool.Accepts.{ItemPasses, verify_item-ItemPasses_iff, concluded-ok}
use libjcat.Tool.Verify.{verify_item, verify_items, verify}
use libjcat.Tool.{Tool, load_file}

module _ {World : Type 0} (gio : Gio World) (undefined_shift : ℕ → JcatBlobKind → Bool) where
  -- Every item passes, from the state that the one before it leaves.
  pub data AllItemsPass : List JcatItem → Tool World → Tool World → Type 0 where
    no_items : (t : Tool World) → AllItemsPass [] t t
    item_passes :
        (item : JcatItem) (items : List JcatItem) (t v u : Tool World)
        → ItemPasses gio undefined_shift item t v
        → AllItemsPass items v u
        → AllItemsPass (item ∷ items) t u

  Ran-cases :
      (r : Result (Unit {0}) × Tool World)
      → ((v : Tool World) × (r ≡ (ok tt, v))) ⊎ ((e : Error) × (v : Tool World) × (r ≡ (err e, v)))
  Ran-cases (ok _, v) = inl (v, refl)
  Ran-cases (err e, v) = inr (e, v, refl)

  verify_items-false :
      (items : List JcatItem) (t u : Tool World)
      → verify_items gio undefined_shift items false t ≡ (ok true, u)
      → ⊥
  unfolding verify_items
  verify_items-false [] t u h = cc (ok-injective (ap (λ p. p.0) h))
  verify_items-false (item ∷ items) t u h =
      elim (Ran-cases (verify_item gio undefined_shift item t)) [
        | inl (v, r) ↦ verify_items-false items v u (rw (r, verify_items) at h)
        | inr (e, v, r) ↦ verify_items-false items _ u (rw (r, verify_items) at h)
      ]

  verify_items-AllItemsPass :
      (items : List JcatItem) (t u : Tool World)
      → verify_items gio undefined_shift items true t ≡ (ok true, u)
      → AllItemsPass items t u
  unfolding verify_items
  verify_items-AllItemsPass [] t u h = rw (sym (ap (λ p. p.1) h)) (no_items t)
  verify_items-AllItemsPass (item ∷ items) t u h =
      elim (Ran-cases (verify_item gio undefined_shift item t)) [
        | inl (v, r) ↦
            item_passes item items t v u
              ((verify_item-ItemPasses_iff gio undefined_shift item t v).0 r)
              (verify_items-AllItemsPass items v u (rw (r, verify_items) at h))
        | inr (e, v, r) ↦ absurd (verify_items-false items _ u (rw (r, verify_items) at h))
      ]

  AllItemsPass-verify_items :
      (items : List JcatItem) (t u : Tool World)
      → AllItemsPass items t u
      → verify_items gio undefined_shift items true t ≡ (ok true, u)
  unfolding verify_items
  AllItemsPass-verify_items _ _ _ (no_items t) = refl
  AllItemsPass-verify_items _ _ _ (item_passes item items t v u p all) =
      rw (verify_items, (verify_item-ItemPasses_iff gio undefined_shift item t v).1 p)
        (AllItemsPass-verify_items items v u all)

  module _ (json : JsonGlib) (base64 : Base64) (clock : ℕ → ℕ) where
    -- `jcat_tool_verify` of a whole file succeeds exactly if the file is read and every item passes;
    -- each item is verified, from the state that the one before it leaves.
    pub verify-AllItemsPass_iff :
        (filename : Bytes) (t u : Tool World)
        → (verify gio undefined_shift json base64 clock (filename ∷ []) t ≡ (ok tt, u)) ↔ (
            (file : JcatFile) × (v : Tool World) × (load_file gio json base64 clock filename t
              ≡ (ok file, v))
            × AllItemsPass file.items v u)
    unfolding verify
    verify-AllItemsPass_iff filename t u = (
      λ h.
          let (file, v, loads, later) =
            and_then-eq-ok (load_file gio json base64 clock filename t) _ h in
          let (ret, w, ran, end) =
            and_then-eq-ok (verify_items gio undefined_shift file.items true v) _ later in
          let (good, same) = concluded-ok gio undefined_shift ret w u end in
          (file, v, loads, verify_items-AllItemsPass file.items v u (ran ∙ rw (good, same) refl)),
      λ (file, v, loads, all). rw (loads, AllItemsPass-verify_items file.items v u all),
    )

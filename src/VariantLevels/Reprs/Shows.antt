-- ===== src/VariantLevels/Reprs/Shows.antt =====
-- What the texts of repr() show of a variant level and of a signature, for the objects of
-- _dbus_bindings/abstract.c and containers.c.
use mathlib.Core.List.{append_cancel_left, append_cancel_right}
use python_dbus.Prelude.{
  sym, ◌∙◌, ℕ, zero, suc, ◌<◌, false, Option, [], ◌∷◌, ◌++◌, ◌≡◌, ◌↔◌, refl, ap, arith, Bytes,
}
use python_dbus.Python.Integer.{ℤ, pos, negsuc, ltb_ℤ}
use python_dbus.Python.{Result, ok}
use python_dbus.VariantLevels.Lifetime.{
  World, Reach, Others, free, structure, become, struct_made_reads,
}
use python_dbus.VariantLevels.Reprs.{
  level_label, signature_label, level_tail, named, signed, struct_signature, struct_repr,
}
use python_dbus.VariantLevels.{struct_store}

module _ (digits : ℕ → Bytes) (injective : (a b : ℕ) → digits a ≡ digits b → a ≡ b) where
  shown : (a : ℕ) → 0 < a → level_tail digits (pos a) ≡ level_label ++ (digits a ++ (b')' ∷ []))
  unfolding level_tail
  shown a h = ground arith

  tail_eq : {x : ℕ} {xs ys : Bytes} → x ∷ xs ≡ x ∷ ys → xs ≡ ys
  tail_eq e = cc

  level_tail-injective :
      (a b : ℤ)
      → ltb_ℤ a (pos 0) ≡ false
      → ltb_ℤ b (pos 0) ≡ false
      → level_tail digits a ≡ level_tail digits b
      → a ≡ b
  unfolding level_tail
  level_tail-injective (negsuc a) b p q e = ground arith
  level_tail-injective a (negsuc b) p q e = ground arith
  level_tail-injective (pos zero) (pos zero) p q e = refl
  level_tail-injective (pos zero) (pos (suc b)) p q e = ground arith
  level_tail-injective (pos (suc a)) (pos zero) p q e = ground arith
  level_tail-injective (pos (suc a)) (pos (suc b)) p q e =
      let end : Bytes = b')' ∷ [] in
      let tail : digits (suc a) ++ end ≡ digits (suc b) ++ end =
        append_cancel_left level_label _ _
          (sym (shown (suc a) (omega arith)) ∙ e ∙ shown (suc b) (omega arith)) in
      ap pos (injective (suc a) (suc b) (append_cancel_right _ _ end tail))

  -- Where numbers print alike only if they are the same: for the same name, contents and, where there is one,
  -- signature, the texts for two levels that are not negative are the same exactly if the levels are.
  pub repr_iff :
      (name parent sig : Bytes) (a b : ℤ)
      → ltb_ℤ a (pos 0) ≡ false
      → ltb_ℤ b (pos 0) ≡ false
      → ((named digits name parent a ≡ named digits name parent b) ↔ (a ≡ b))
        × ((signed digits name parent sig a ≡ signed digits name parent sig b) ↔ (a ≡ b))
  unfolding named signed
  repr_iff name parent sig a b p q = (
    (
      λ e.
          level_tail-injective a b p q
            (append_cancel_left parent _ _ (tail_eq (append_cancel_left name _ _ e))),
      λ e. ap (named digits name parent) e,
    ),
    (
      λ e. level_tail-injective a b p q (
          append_cancel_left sig _ _ (
            append_cancel_left signature_label _ _
              (append_cancel_left parent _ _ (tail_eq (append_cancel_left name _ _ e))))),
      λ e. ap (signed digits name parent sig) e,
    ),
  )

-- A text of repr(): the level is shown where it is not 0.
abbrev pub shows_level : (ℕ → Bytes) → ℕ → Bytes
shows_level digits zero = b')' ∷ []
shows_level digits (suc n) = level_label ++ (digits (suc n) ++ (b')' ∷ []))

abbrev pub shows : (ℕ → Bytes) → Bytes → Bytes → Bytes → ℕ → Bytes
shows digits name parent sig level =
    name ++ (b'(' ∷ (parent ++ (signature_label ++ (sig ++ shows_level digits level))))

signed-shows :
    (digits : ℕ → Bytes) (name parent sig : Bytes) (level : ℕ)
    → signed digits name parent sig (pos level) ≡ shows digits name parent sig level
unfolding signed level_tail
signed-shows digits name parent sig zero = refl
signed-shows digits name parent sig (suc n) = ground arith

-- A struct that is made under an unused identity of a reachable state, with a level: after
-- any steps on other objects, repr() shows the signature that it was made with, and that level, unless it is 0, where the tuple
-- and the signature can be shown.
pub struct_repr-made :
    (digits : ℕ → Bytes) (name parent shown : Bytes) (show_signature : Option Bytes → Result Bytes)
    {w w' : World} (obj : ℕ) (level : ℕ) (sig : Option Bytes)
    → show_signature sig ≡ ok shown
    → Reach w
    → w.kind obj ≡ free
    → Others obj
        (record {
          kind = become w.kind obj structure;
          tables = (struct_store w.tables obj (pos level) (ok sig)).0;
        })
        w'
    → struct_repr digits name (ok parent) show_signature w'.tables obj
      ≡ ok (shows digits name parent shown level)
unfolding struct_repr struct_signature
struct_repr-made digits name parent shown show_signature {w} {w'} obj level sig e r h os =
    let (reads, kept) = struct_made_reads obj (pos level) sig r h (ground arith) os in
    rw (kept, struct_signature)
      (rw e (rw (reads, struct_repr) (ap ok (signed-shows digits name parent shown level))))

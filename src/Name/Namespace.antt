-- ===== src/Name/Namespace.antt =====
-- src/name.rs: projects have separate namespaces.
use postgres_test_harness.Base.{
  ◌+◌, ◌≡◌, refl, ap, sym, ◌∙◌, inl, inr, [], ◌∷◌, ◌++◌, append_assoc, append-cancel, arith, length,
  length-append, Text, text, some,
}
use postgres_test_harness.Config.Project.{ProjectName}
use postgres_test_harness.Name.{DatabaseName, from_existing}
use postgres_test_harness.Name.Laws.{IsManaged, from_existing_sound}

-- The same infix and suffixes of the same length: then the names before them are the same.
same_middle :
    (x y infix_text s t : Text)
    → length s ≡ length t
    → (x ++ infix_text) ++ s ≡ (y ++ infix_text) ++ t
    → x ≡ y
same_middle x y m s t h e =
    let total = ap length e in
    (append-cancel x y (m ++ s) (m ++ t)
      (omega (
        arith,
        total,
        length-append (x ++ m) s,
        length-append x m,
        length-append (y ++ m) t,
        length-append y m,
      ))
      (sym (append_assoc x m s) ∙ e ∙ append_assoc y m t)).0

-- A test name of one project is no template name of another.
test_is_no_template :
    (x y s t : Text)
    → length x + 4 ≡ length y
    → x ++ (text "_test_" ++ s) ≡ y ++ (text "_template_" ++ t)
    → ⊥
test_is_no_template [] (a ∷ b ∷ c ∷ d ∷ []) s t h e = ground arith
test_is_no_template (x ∷ xs) (y ∷ ys) s t h e = test_is_no_template xs ys s t (omega arith) (cc)
test_is_no_template [] [] s t h e = absurd (omega arith)
test_is_no_template [] (a ∷ []) s t h e = absurd (omega arith)
test_is_no_template [] (a ∷ b ∷ []) s t h e = absurd (omega arith)
test_is_no_template [] (a ∷ b ∷ c ∷ []) s t h e = absurd (omega arith)
test_is_no_template [] (a ∷ b ∷ c ∷ d ∷ f ∷ r) s t h e = absurd (omega arith)
test_is_no_template (x ∷ xs) [] s t h e = absurd (omega arith)

different_kinds :
    (x y s t : Text)
    → length s ≡ 32
    → length t ≡ 24
    → (x ++ text "_test_") ++ s ≡ (y ++ text "_template_") ++ t
    → ⊥
different_kinds x y s t hs ht e =
    let total = ap length e in
    test_is_no_template x y s t
      (omega (
        arith,
        total,
        length-append (x ++ text "_test_") s,
        length-append x (text "_test_"),
        length-append (y ++ text "_template_") t,
        length-append y (text "_template_"),
      ))
      (sym (append_assoc x (text "_test_") s) ∙ e ∙ append_assoc y (text "_template_") t)

after_start : (s t : Text) → text "pgh_" ++ s ≡ text "pgh_" ++ t → s ≡ t
after_start s t e = (append-cancel (text "pgh_") (text "pgh_") s t refl e).1

same_project :
    (p q : ProjectName) (m n : DatabaseName)
    → m.value ≡ n.value
    → IsManaged p m
    → IsManaged q n
    → p.value ≡ q.value
same_project p q m n e (inl (s, es, hs, k)) (inl (t, et, ht, l)) =
    same_middle p.value q.value (text "_test_") s t (hs.0 ∙ sym ht.0)
      (after_start _ _ (sym es ∙ e ∙ et))
same_project p q m n e (inr (s, es, hs, k)) (inr (t, et, ht, l)) =
    same_middle p.value q.value (text "_template_") s t (hs.0 ∙ sym ht.0)
      (after_start _ _ (sym es ∙ e ∙ et))
same_project p q m n e (inl (s, es, hs, k)) (inr (t, et, ht, l)) =
    absurd (different_kinds p.value q.value s t hs.0 ht.0 (after_start _ _ (sym es ∙ e ∙ et)))
same_project p q m n e (inr (s, es, hs, k)) (inl (t, et, ht, l)) =
    absurd (different_kinds q.value p.value t s ht.0 hs.0 (after_start _ _ (sym et ∙ sym e ∙ es)))

-- No text is recognised as a managed name of two projects.
pub from_existing-project :
    (p q : ProjectName) (value : Text) (m n : DatabaseName)
    → from_existing p value ≡ some m
    → from_existing q value ≡ some n
    → p.value ≡ q.value
from_existing-project p q value m n h k =
    let (vm, bm, managed_m) = from_existing_sound p value m h in
    let (vn, bn, managed_n) = from_existing_sound q value n k in
    same_project p q m n (vm ∙ sym vn) managed_m managed_n

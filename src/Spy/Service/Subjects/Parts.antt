-- ===== src/Spy/Service/Subjects/Parts.antt =====
-- The keys of src/spy/service.ts as joins of their parts: they are equal exactly if all parts are,
-- while no part in front of a colon has one.
use rootcell.Prelude.{
  ◌≡◌, ap, ◌∙◌, Bool, ◌&&◌, [], ◌∷◌, ◌++◌, Text, String, codes, text_eq, join, Lacks, arith,
}
use rootcell.Spy.Service.Subjects.{join_key}

text_eq-cut :
    (x y s t : Text)
    → Lacks b':' x
    → Lacks b':' y
    → text_eq (x ++ (b':' ∷ s)) (y ++ (b':' ∷ t)) ≡ (text_eq x y && text_eq s t)
unfolding text_eq
text_eq-cut [] [] s t h k = ground arith
text_eq-cut [] (y ∷ ys) s t h (p, k) = ground arith
text_eq-cut (x ∷ xs) [] s t (p, h) k = ground arith
text_eq-cut (x ∷ xs) (y ∷ ys) s t (p, h) (q, k) = ground (arith, text_eq-cut xs ys s t h k)

-- What a key is joined of.
pub record Parts : Type 0 where
  pub name : String
  pub call_id : Text
  pub direction : Text
  pub block_id : Text
  pub kind : Text
  pub label : Text

abbrev pub key_of : Parts → Text
key_of p = join_key p.name p.call_id p.direction p.block_id p.kind p.label

abbrev pub same_parts : Parts → Parts → Bool
same_parts p q =
    text_eq (codes p.name) (codes q.name)
    && (text_eq p.call_id q.call_id
        && (text_eq p.direction q.direction
            && (text_eq p.block_id q.block_id
                && (text_eq p.kind q.kind && text_eq p.label q.label))))

-- No part that stands in front of a colon has one.
pub record ArePlain (p : Parts) : Type 0 where
  pub name : Lacks b':' (codes p.name)
  pub call_id : Lacks b':' p.call_id
  pub direction : Lacks b':' p.direction
  pub block_id : Lacks b':' p.block_id
  pub kind : Lacks b':' p.kind

-- The keys are equal if all parts are.
pub text_eq-key_of :
    (p q : Parts) → ArePlain p → ArePlain q → text_eq (key_of p) (key_of q) ≡ same_parts p q
unfolding join
text_eq-key_of p q h k =
    text_eq-cut (codes p.name) (codes q.name) _ _ h.name k.name
    ∙ ap (λ x. text_eq (codes p.name) (codes q.name) && x)
        (text_eq-cut p.call_id q.call_id _ _ h.call_id k.call_id
          ∙ ap (λ x. text_eq p.call_id q.call_id && x)
              (text_eq-cut p.direction q.direction _ _ h.direction k.direction
                ∙ ap (λ x. text_eq p.direction q.direction && x)
                    (text_eq-cut p.block_id q.block_id _ _ h.block_id k.block_id
                      ∙ ap (λ x. text_eq p.block_id q.block_id && x)
                          (text_eq-cut p.kind q.kind p.label q.label h.kind k.kind))))

abbrev pub parts_with : String → Text → Text → Text → Text → Text → Parts
parts_with name call_id direction block_id kind label = record {
  name = name;
  call_id = call_id;
  direction = direction;
  block_id = block_id;
  kind = kind;
  label = label;
}

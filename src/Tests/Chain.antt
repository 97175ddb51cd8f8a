-- ===== src/Tests/Chain.antt =====
-- A chain node at the address 9 with the object 1; the object 2 has the same key.
use ffprinter.Prelude.{◌≡◌, ◌==◌, if◌then◌else◌, refl, true, some, [], ◌∷◌, arith, success}
use ffprinter.Chains.{Chains, same_str, add_to_chain}
use ffprinter.Chains.Remove.{Ends, unlink_from_chain, unlink_from_chain_lem}
use ffprinter.Chains.Add.{IsChainOf, add_to_chain-IsChainOf}

abbrev one_object : Chains
one_object = record {
  str_name = λ p. b'a' ∷ [];
  links = record { next = λ p. 0; prev = λ p. 0 };
  node = λ p. 9;
  head_tar = λ p. 1;
  tail_tar = λ p. 1;
  number = λ p. 1;
}

one_object-IsChainOf : IsChainOf one_object 9 1 []
one_object-IsChainOf = record {
  linked = record { linked = omega arith; distinct = omega arith };
  known = omega arith;
  head = refl;
  tail = refl;
  counted = refl;
}

same_name : same_str (b'a' ∷ []) (b'a' ∷ []) ≡ true
unfolding same_str
same_name = refl

add_to_chain-IsChainOf_example :
    (d : Chains) × (add_to_chain one_object 1 2 ≡ some (success, d)) × IsChainOf d 9 1 (2 ∷ [])
add_to_chain-IsChainOf_example =
    add_to_chain-IsChainOf one_object 9 1 2 1 [] one_object-IsChainOf refl (omega arith)
      (omega arith) (omega arith) (omega arith) same_name (omega arith)

-- The chain of the objects 1, 2 and 3.
abbrev three_objects : Chains
three_objects = record one_object {
  links = record {
    next = λ p. if p == 1 then 2 else if p == 2 then 3 else 0;
    prev = λ p. if p == 2 then 1 else if p == 3 then 2 else 0;
  };
  tail_tar = λ p. 3;
  number = λ p. 3;
}

three_objects-Ends : Ends three_objects 9 (1 ∷ 2 ∷ 3 ∷ [])
three_objects-Ends = record {
  chain = record { linked = omega arith; distinct = omega arith };
  head = refl;
  tail = refl;
}

unlink_from_chain_lem_example :
    Ends (unlink_from_chain three_objects 9 2) 9 (1 ∷ 3 ∷ [])
    × ((unlink_from_chain three_objects 9 2).number 9 ≡ 3)
    × ((unlink_from_chain three_objects 9 2).node 2 ≡ 9)
unlink_from_chain_lem_example =
    unlink_from_chain_lem three_objects 9 2 (1 ∷ []) (3 ∷ []) three_objects-Ends refl (omega arith)

-- ===== src/Fst/Tests.antt =====
-- A transducer as lists, to run the code.
use mozolm.Base.{
  ℕ, ◌+◌, refl, Option, none, some, List, [], ◌∷◌, ◌++◌, length, get_elem?, set, length-append,
  length-set, ◌∙◌, Bool, true, false, if◌then◌else◌, ◌==◌,
}
use mozolm.Base.Int.{ℤ, pos, minus_one}
use mozolm.Utf8.{Bytes}
use mozolm.Fst.{Arc, FstLibrary, IsFst}

pub record ListFst : Type 0 where
  pub first : ℕ
  pub arcs_of : List (List (Arc ℕ))
  pub finals : List ℕ
  pub symbols : List Bytes

abbrev pub far : ℕ
far = 1_000_000

abbrev pub or_none : Option (List (Arc ℕ)) → List (Arc ℕ)
or_none none = []
or_none (some others) = others

abbrev pub or_far : Option ℕ → ℕ
or_far none = far
or_far (some w) = w

abbrev pub same_bytes : Bytes → Bytes → Bool
same_bytes [] [] = true
same_bytes [] (b ∷ s) = false
same_bytes (a ∷ r) [] = false
same_bytes (a ∷ r) (b ∷ s) = let rest = same_bytes r s in if a == b then rest else false

abbrev pub found_at : ℕ → Bytes → List Bytes → ℤ
found_at i s [] = minus_one
found_at i s (t ∷ ts) = let later = found_at (i + 1) s ts in if same_bytes s t then pos i else later

abbrev pub or_empty : Option Bytes → Bytes
or_empty none = []
or_empty (some s) = s

-- Arcs stay in the order in which they are added.
abbrev pub lists : FstLibrary ℕ ListFst
lists = record {
  start = λ f. f.first;
  num_states = λ f. length f.arcs_of;
  arcs = λ s f. or_none (get_elem? f.arcs_of s);
  final = λ s f. or_far (get_elem? f.finals s);
  empty = record { first = 0; arcs_of = []; finals = []; symbols = [] };
  add_state = λ f. record f { arcs_of = f.arcs_of ++ [] ∷ []; finals = f.finals ++ far ∷ [] };
  set_start = λ s f. record f { first = s };
  set_final = λ s w f. record f { finals = set f.finals s w };
  add_arc =
      λ s a f. record f { arcs_of = set f.arcs_of s (or_none (get_elem? f.arcs_of s) ++ a ∷ []) };
  with_arcs = λ s others f. record f { arcs_of = set f.arcs_of s others };
  arc_sort = λ f. f;
  find_symbol = λ s f. found_at 0 s f.symbols;
  symbol_at = λ i f. or_empty (get_elem? f.symbols i);
  add_symbol = λ s f. record f { symbols = f.symbols ++ s ∷ [] };
}

pub lists-IsFst : IsFst lists
lists-IsFst = record {
  add_state = λ f. length-append f.arcs_of ([] ∷ []) ∙ refl;
  set_final = λ s w f. refl;
  add_arc = λ s a f. length-set f.arcs_of s (or_none (get_elem? f.arcs_of s) ++ a ∷ []);
  with_arcs = λ s others f. length-set f.arcs_of s others;
}

-- A start state and the unigram state behind it, over one symbol, "a".
abbrev pub tiny : ListFst
tiny = record {
  first = 0;
  arcs_of =
      (record { ilabel = 0; weight = 1; nextstate = 1 }
        ∷ record { ilabel = 1; weight = 2; nextstate = 0 }
        ∷ [])
      ∷ (record { ilabel = 1; weight = 3; nextstate = 1 } ∷ [])
      ∷ [];
  finals = far ∷ 4 ∷ [];
  symbols = [] ∷ (97 ∷ []) ∷ [];
}

-- ===== src/Fst.antt =====
-- The finite-state transducers of OpenFst, as mozolm/models uses them: `StdVectorFst` with its arcs,
-- final weights and symbol tables is a parameter.
pub mod Tests
use mozolm.Base.{ℕ, ◌+◌, ◌<◌, ◌≡◌, ◌≢◌, List, [], ◌∷◌, ◌++◌, Option, none, some}
use mozolm.Base.Int.{ℤ}
use mozolm.Utf8.{Bytes}

-- `StdArc`; the output label is always the input label. A label is no negative number, and neither is
-- the state that an arc leads to.
pub record Arc (D : Type 0) : Type 0 where
  pub ilabel : ℕ
  pub weight : D
  pub nextstate : ℕ

-- The operations on transducers `F`. `with_arcs` gives a state the arcs that a `MutableArcIterator`
-- leaves there. The start state is read only of transducers that have one.
pub record FstLibrary (D F : Type 0) : Type 0 where
  pub start : F → ℕ
  pub num_states : F → ℕ
  pub arcs : ℕ → F → List (Arc D)
  pub final : ℕ → F → D
  pub empty : F
  pub add_state : F → F
  pub set_start : ℕ → F → F
  pub set_final : ℕ → D → F → F
  pub add_arc : ℕ → Arc D → F → F
  pub with_arcs : ℕ → List (Arc D) → F → F
  -- `ArcSort` by input label.
  pub arc_sort : F → F
  -- `InputSymbols()->Find` of a symbol, -1 where there is none, and of a label; `AddSymbol` for the
  -- tables of input and output symbols.
  pub find_symbol : Bytes → F → ℤ
  pub symbol_at : ℕ → F → Bytes
  pub add_symbol : Bytes → F → F

-- `SymbolTable`, of type `T`, beside the tables of a transducer: `Find`, `AddSymbol`, the labels in
-- their order, and the call of both `SetInputSymbols` and `SetOutputSymbols`.
pub record SymbolLibrary (F T : Type 0) : Type 0 where
  pub empty_table : T
  pub find : Bytes → T → ℤ
  pub add : Bytes → T → T
  pub labels : T → List ℤ
  pub set_symbols : T → F → F

-- Only `AddState` changes the number of states.
pub record IsFst {D F : Type 0} (l : FstLibrary D F) : Type 0 where
  pub add_state : (f : F) → l.num_states (l.add_state f) ≡ l.num_states f + 1
  pub set_final : (s : ℕ) (w : D) (f : F) → l.num_states (l.set_final s w f) ≡ l.num_states f
  pub add_arc : (s : ℕ) (a : Arc D) (f : F) → l.num_states (l.add_arc s a f) ≡ l.num_states f
  pub with_arcs :
      (s : ℕ) (others : List (Arc D)) (f : F)
      → l.num_states (l.with_arcs s others f) ≡ l.num_states f

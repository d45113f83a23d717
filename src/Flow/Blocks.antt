-- ===== src/Flow/Blocks.antt =====
-- packages/core/src/cfg/basic-block.js, edge.js and cfg.js: `BasicBlock`, `Edge`, `ControlFlowGraph`.
-- Blocks are shared objects: a block stands in a heap under its address, and edges hold addresses.
use valax_wearedevs_deobfusc.Prelude.{
  ℕ, String, Bool, false, Option, none, some, List, [], ◌∷◌, ◌++◌, ap, ℕ_discrete, text_discrete,
}
use valax_wearedevs_deobfusc.Prelude.Dict
use valax_wearedevs_deobfusc.Prelude.Dict.{Dict, Key, number_key}

-- A block's id is a number or a text; no number is equal to a text.
pub data BlockId : Type 0 where
  number_id : ℕ → BlockId
  text_id : String → BlockId

-- A bound of a range of states: `-Infinity`, a number or `Infinity`.
pub data Bound : Type 0 where
  lowest : Bound
  bound_at : ℕ → Bound
  highest : Bound

unfoldable pub id_discrete : Discrete BlockId
id_discrete (number_id m) (number_id n) = elim (ℕ_discrete m n) [
  | yes e ↦ yes (ap number_id e)
  | no d ↦ no (λ p. d (cc p))
]
id_discrete (text_id m) (text_id n) = elim (text_discrete m n) [
  | yes e ↦ yes (ap text_id e)
  | no d ↦ no (λ p. d (cc p))
]
id_discrete (number_id m) (text_id n) = no (λ p. cc p)
id_discrete (text_id m) (number_id n) = no (λ p. cc p)

instance abbrev pub id_key : Key BlockId
id_key = record { dec = id_discrete }

pub data EdgeType : Type 0 where
  unconditional conditional_true conditional_false table_dispatch dynamic : EdgeType

abbrev pub Address : Type 0
Address = ℕ

-- The addresses of both ends.
pub record Edge (Condition : Type 0) : Type 0 where
  pub source : Address
  pub target : Address
  pub edge_type : EdgeType
  pub condition : Option Condition

module _ (Condition Statement : Type 0) where
  -- `minState` and `maxState` are set by the dispatcher's analysis, on some blocks.
  pub record Block : Type 0 where
    pub id : BlockId
    pub statements : List Statement
    pub predecessors : List (Edge Condition)
    pub successors : List (Edge Condition)
    pub is_entry : Bool
    pub is_exit : Bool
    pub min_state : Option Bound
    pub max_state : Option Bound

  pub record Graph : Type 0 where
    pub dispatcher_var : String
    pub heap : Dict Address Block
    pub blocks : Dict BlockId Address
    pub entry : Option Address
    pub exits : List Address
    pub edges : List (Edge Condition)

module _ {C S : Type 0} where
  abbrev pub new_block : BlockId → Block C S
  new_block i = record {
    id = i;
    statements = [];
    predecessors = [];
    successors = [];
    is_entry = false;
    is_exit = false;
    min_state = none;
    max_state = none;
  }

  abbrev pub add_statement : S → Block C S → Block C S
  add_statement s b = record b { statements = b.statements ++ (s ∷ []) }

  abbrev pub add_successor : Edge C → Block C S → Block C S
  add_successor e b = record b { successors = b.successors ++ (e ∷ []) }

  abbrev pub add_predecessor : Edge C → Block C S → Block C S
  add_predecessor e b = record b { predecessors = b.predecessors ++ (e ∷ []) }

  abbrev pub new_graph : String → Graph C S
  new_graph v = record {
    dispatcher_var = v;
    heap = [];
    blocks = [];
    entry = none;
    exits = [];
    edges = [];
  }

  -- A change of the object at an address.
  unfoldable pub update :
      Address → (Block C S → Block C S) → Dict Address (Block C S) → Dict Address (Block C S)
  unfolding Dict.get Dict.set
  update a f h = elim (Dict.get a h) [ none ↦ h | some b ↦ Dict.set a (f b) h ]

  -- `addEdge`: both ends are blocks, at their addresses.
  unfoldable pub add_edge : Address → Address → EdgeType → Option C → Graph C S → Graph C S
  unfolding update
  add_edge s t k c g =
      let e : Edge C = record { source = s; target = t; edge_type = k; condition = c } in
      record g {
        heap = update t (add_predecessor e) (update s (add_successor e) g.heap);
        edges = g.edges ++ (e ∷ []);
      }

  unfoldable pub add_block : Address → Block C S → Graph C S → Graph C S
  unfolding Dict.set
  add_block a b g = record g { heap = Dict.set a b g.heap; blocks = Dict.set b.id a g.blocks }

  unfoldable pub get_block : BlockId → Graph C S → Option Address
  unfolding Dict.get
  get_block i g = Dict.get i g.blocks

  unfoldable pub has_block : BlockId → Graph C S → Bool
  unfolding Dict.has
  has_block i g = Dict.has i g.blocks

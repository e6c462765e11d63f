-- ===== src/RegisterAllocator.antt =====
-- vm/RegisterAllocator.c and RegisterAllocator.h: the live ranges of a method's variables, and
-- their registers by a linear scan. A pointer into the array `vars` is the index, and the array
-- is a function. A register is a byte; 255 is SPILLED_REG, that is -1.
pub mod Ranges
pub mod Registers
pub mod Alloc
pub mod Pool
pub mod Scan
use yet_another_smalltalk_vm.Base.{
  ℕ, ◌+◌, Bool, true, false, Option, none, some, List, [], ◌==◌, if◌then◌else◌,
}
use yet_another_smalltalk_vm.Base.Int.{ℤ, pos}

pub data VariableType : Type 0 where
  context : VariableType
  class : VariableType
  assoc : VariableType
  tmp : VariableType

-- The flags are VAR_DEFINED, VAR_IN_REG and VAR_ON_STACK; `stop` is the source's `end`.
pub record Variable : Type 0 where
  pub index : ℕ
  pub defined : Bool
  pub in_reg : Bool
  pub on_stack : Bool
  pub reg : ℕ
  pub start : ℕ
  pub stop : ℕ
  pub frame_offset : ℤ

-- what `memset` leaves
abbrev pub zeroed : Variable
zeroed = record {
  index = 0;
  defined = false;
  in_reg = false;
  on_stack = false;
  reg = 0;
  start = 0;
  stop = 0;
  frame_offset = pos 0;
}

abbrev pub spilled_reg : ℕ
spilled_reg = 255

abbrev pub VarArray : Type 0
VarArray = ℕ → Variable

unfoldable pub update : VarArray → ℕ → Variable → VarArray
update vars i v j = if i == j then v else vars j

-- `order` holds the variables in the order of their definition.
pub record Vars : Type 0 where
  pub vars_size : ℕ
  pub vars : VarArray
  pub special_vars : VariableType → ℕ → Option ℕ
  pub order : List ℕ
  pub max_offset : ℕ
  pub frame_less : Bool
  pub frame_size : ℤ

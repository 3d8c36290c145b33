-- ===== src/Decode/Item.antt =====
-- src/decode.rs: payloads, exception tables and code items.
use droidsaw_dex.Prelude.{ℕ, Option, List}
use droidsaw_dex.Prelude.Int.{ℤ}
use droidsaw_dex.Decode.Insn.{Instruction}
use droidsaw_dex.Decode.Single.{Violation}

pub data PayloadData : Type 0 where
  packed_switch : ℤ → List ℕ → PayloadData
  sparse_switch : List ℤ → List ℕ → PayloadData
  fill_array_data : ℕ → List ℕ → PayloadData

pub record TryItem : Type 0 where
  pub start_addr : ℕ
  pub insn_count : ℕ
  pub handler_idx : ℕ

pub record TypedCatch : Type 0 where
  pub exception_type : ℕ
  pub handler_addr : ℕ

pub record CatchHandler : Type 0 where
  pub catches : List TypedCatch
  pub catch_all_addr : Option ℕ

-- `payloads` is a map from code addresses, as a list in ascending order.
pub record CodeItem : Type 0 where
  pub registers_size : ℕ
  pub ins_size : ℕ
  pub outs_size : ℕ
  pub debug_info_off : ℕ
  pub instructions : List Instruction
  pub tries : List TryItem
  pub catch_handlers : List CatchHandler
  pub payloads : List (ℕ × PayloadData)
  pub invariant_violations : List Violation

-- ===== src/Optimize/Classes.antt =====
-- src/optimize.rs: the classes of opcodes that the passes look at.
use droidsaw_dex.Prelude.{Bool, true, false}
use droidsaw_dex.Opcodes.{Opcode}

-- the copies from register to register
unfoldable pub is_move : Opcode → Bool
is_move Opcode.move = true
is_move Opcode.move_from16 = true
is_move Opcode.move16 = true
is_move Opcode.move_wide = true
is_move Opcode.move_wide_from16 = true
is_move Opcode.move_wide16 = true
is_move Opcode.move_object = true
is_move Opcode.move_object_from16 = true
is_move Opcode.move_object16 = true
is_move _ = false

-- the instructions whose result is their literal
unfoldable pub is_const : Opcode → Bool
is_const Opcode.const4 = true
is_const Opcode.const16 = true
is_const Opcode.const = true
is_const Opcode.const_high16 = true
is_const Opcode.const_wide16 = true
is_const Opcode.const_wide32 = true
is_const Opcode.const_wide = true
is_const Opcode.const_wide_high16 = true
is_const _ = false

-- the instructions that a pass may remove when their result is not used
unfoldable pub is_pure_op : Opcode → Bool
is_pure_op Opcode.const4 = true
is_pure_op Opcode.const16 = true
is_pure_op Opcode.const = true
is_pure_op Opcode.const_high16 = true
is_pure_op Opcode.const_wide16 = true
is_pure_op Opcode.const_wide32 = true
is_pure_op Opcode.const_wide = true
is_pure_op Opcode.const_wide_high16 = true
is_pure_op Opcode.const_string = true
is_pure_op Opcode.const_string_jumbo = true
is_pure_op Opcode.const_class = true
is_pure_op Opcode.const_method_handle = true
is_pure_op Opcode.const_method_type = true
is_pure_op Opcode.move = true
is_pure_op Opcode.move_from16 = true
is_pure_op Opcode.move16 = true
is_pure_op Opcode.move_wide = true
is_pure_op Opcode.move_wide_from16 = true
is_pure_op Opcode.move_wide16 = true
is_pure_op Opcode.move_object = true
is_pure_op Opcode.move_object_from16 = true
is_pure_op Opcode.move_object16 = true
is_pure_op Opcode.move_result = true
is_pure_op Opcode.move_result_wide = true
is_pure_op Opcode.move_result_object = true
is_pure_op Opcode.move_exception = true
is_pure_op Opcode.add_int = true
is_pure_op Opcode.sub_int = true
is_pure_op Opcode.mul_int = true
is_pure_op Opcode.div_int = true
is_pure_op Opcode.rem_int = true
is_pure_op Opcode.and_int = true
is_pure_op Opcode.or_int = true
is_pure_op Opcode.xor_int = true
is_pure_op Opcode.shl_int = true
is_pure_op Opcode.shr_int = true
is_pure_op Opcode.ushr_int = true
is_pure_op Opcode.add_long = true
is_pure_op Opcode.sub_long = true
is_pure_op Opcode.mul_long = true
is_pure_op Opcode.div_long = true
is_pure_op Opcode.rem_long = true
is_pure_op Opcode.and_long = true
is_pure_op Opcode.or_long = true
is_pure_op Opcode.xor_long = true
is_pure_op Opcode.shl_long = true
is_pure_op Opcode.shr_long = true
is_pure_op Opcode.ushr_long = true
is_pure_op Opcode.add_float = true
is_pure_op Opcode.sub_float = true
is_pure_op Opcode.mul_float = true
is_pure_op Opcode.div_float = true
is_pure_op Opcode.rem_float = true
is_pure_op Opcode.add_double = true
is_pure_op Opcode.sub_double = true
is_pure_op Opcode.mul_double = true
is_pure_op Opcode.div_double = true
is_pure_op Opcode.rem_double = true
is_pure_op Opcode.add_int_2addr = true
is_pure_op Opcode.sub_int_2addr = true
is_pure_op Opcode.mul_int_2addr = true
is_pure_op Opcode.div_int_2addr = true
is_pure_op Opcode.rem_int_2addr = true
is_pure_op Opcode.and_int_2addr = true
is_pure_op Opcode.or_int_2addr = true
is_pure_op Opcode.xor_int_2addr = true
is_pure_op Opcode.shl_int_2addr = true
is_pure_op Opcode.shr_int_2addr = true
is_pure_op Opcode.ushr_int_2addr = true
is_pure_op Opcode.add_long_2addr = true
is_pure_op Opcode.sub_long_2addr = true
is_pure_op Opcode.mul_long_2addr = true
is_pure_op Opcode.div_long_2addr = true
is_pure_op Opcode.rem_long_2addr = true
is_pure_op Opcode.and_long_2addr = true
is_pure_op Opcode.or_long_2addr = true
is_pure_op Opcode.xor_long_2addr = true
is_pure_op Opcode.shl_long_2addr = true
is_pure_op Opcode.shr_long_2addr = true
is_pure_op Opcode.ushr_long_2addr = true
is_pure_op Opcode.add_float_2addr = true
is_pure_op Opcode.sub_float_2addr = true
is_pure_op Opcode.mul_float_2addr = true
is_pure_op Opcode.div_float_2addr = true
is_pure_op Opcode.rem_float_2addr = true
is_pure_op Opcode.add_double_2addr = true
is_pure_op Opcode.sub_double_2addr = true
is_pure_op Opcode.mul_double_2addr = true
is_pure_op Opcode.div_double_2addr = true
is_pure_op Opcode.rem_double_2addr = true
is_pure_op Opcode.add_int_lit16 = true
is_pure_op Opcode.rsub_int = true
is_pure_op Opcode.mul_int_lit16 = true
is_pure_op Opcode.div_int_lit16 = true
is_pure_op Opcode.rem_int_lit16 = true
is_pure_op Opcode.and_int_lit16 = true
is_pure_op Opcode.or_int_lit16 = true
is_pure_op Opcode.xor_int_lit16 = true
is_pure_op Opcode.add_int_lit8 = true
is_pure_op Opcode.rsub_int_lit8 = true
is_pure_op Opcode.mul_int_lit8 = true
is_pure_op Opcode.div_int_lit8 = true
is_pure_op Opcode.rem_int_lit8 = true
is_pure_op Opcode.and_int_lit8 = true
is_pure_op Opcode.or_int_lit8 = true
is_pure_op Opcode.xor_int_lit8 = true
is_pure_op Opcode.shl_int_lit8 = true
is_pure_op Opcode.shr_int_lit8 = true
is_pure_op Opcode.ushr_int_lit8 = true
is_pure_op Opcode.neg_int = true
is_pure_op Opcode.not_int = true
is_pure_op Opcode.neg_long = true
is_pure_op Opcode.not_long = true
is_pure_op Opcode.neg_float = true
is_pure_op Opcode.neg_double = true
is_pure_op Opcode.int_to_long = true
is_pure_op Opcode.int_to_float = true
is_pure_op Opcode.int_to_double = true
is_pure_op Opcode.long_to_int = true
is_pure_op Opcode.long_to_float = true
is_pure_op Opcode.long_to_double = true
is_pure_op Opcode.float_to_int = true
is_pure_op Opcode.float_to_long = true
is_pure_op Opcode.float_to_double = true
is_pure_op Opcode.double_to_int = true
is_pure_op Opcode.double_to_long = true
is_pure_op Opcode.double_to_float = true
is_pure_op Opcode.int_to_byte = true
is_pure_op Opcode.int_to_char = true
is_pure_op Opcode.int_to_short = true
is_pure_op Opcode.cmpl_float = true
is_pure_op Opcode.cmpg_float = true
is_pure_op Opcode.cmpl_double = true
is_pure_op Opcode.cmpg_double = true
is_pure_op Opcode.cmp_long = true
is_pure_op Opcode.array_length = true
is_pure_op Opcode.instance_of = true
is_pure_op Opcode.nop = true
is_pure_op _ = false

-- the instructions with a 64-bit result
unfoldable pub is_wide_op : Opcode → Bool
is_wide_op Opcode.add_long = true
is_wide_op Opcode.sub_long = true
is_wide_op Opcode.mul_long = true
is_wide_op Opcode.div_long = true
is_wide_op Opcode.rem_long = true
is_wide_op Opcode.and_long = true
is_wide_op Opcode.or_long = true
is_wide_op Opcode.xor_long = true
is_wide_op Opcode.shl_long = true
is_wide_op Opcode.shr_long = true
is_wide_op Opcode.ushr_long = true
is_wide_op Opcode.add_long_2addr = true
is_wide_op Opcode.sub_long_2addr = true
is_wide_op Opcode.mul_long_2addr = true
is_wide_op Opcode.div_long_2addr = true
is_wide_op Opcode.rem_long_2addr = true
is_wide_op Opcode.and_long_2addr = true
is_wide_op Opcode.or_long_2addr = true
is_wide_op Opcode.xor_long_2addr = true
is_wide_op Opcode.shl_long_2addr = true
is_wide_op Opcode.shr_long_2addr = true
is_wide_op Opcode.ushr_long_2addr = true
is_wide_op Opcode.neg_long = true
is_wide_op Opcode.not_long = true
is_wide_op Opcode.int_to_long = true
is_wide_op Opcode.float_to_long = true
is_wide_op Opcode.double_to_long = true
is_wide_op Opcode.add_double = true
is_wide_op Opcode.sub_double = true
is_wide_op Opcode.mul_double = true
is_wide_op Opcode.div_double = true
is_wide_op Opcode.rem_double = true
is_wide_op Opcode.add_double_2addr = true
is_wide_op Opcode.sub_double_2addr = true
is_wide_op Opcode.mul_double_2addr = true
is_wide_op Opcode.div_double_2addr = true
is_wide_op Opcode.rem_double_2addr = true
is_wide_op Opcode.neg_double = true
is_wide_op Opcode.int_to_double = true
is_wide_op Opcode.long_to_double = true
is_wide_op Opcode.float_to_double = true
is_wide_op Opcode.const_wide16 = true
is_wide_op Opcode.const_wide32 = true
is_wide_op Opcode.const_wide = true
is_wide_op Opcode.const_wide_high16 = true
is_wide_op _ = false

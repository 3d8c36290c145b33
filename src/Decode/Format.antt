-- ===== src/Decode/Format.antt =====
-- src/decode.rs: `InsnFormat`, `insn_format` and `format_size`.
use droidsaw_dex.Prelude.{ℕ}
use droidsaw_dex.Opcodes.{Opcode}

-- The instruction formats of the Dalvik bytecode, by the source's names.
pub data InsnFormat : Type 0 where
  f10x f12x f11n f11x f10t f20t f22x f21t f21s f21h f21c f23x f22t : InsnFormat
  f22s f22c f22b f30t f32x f31i f31t f31c f35c f3rc f45cc f4rcc f51l : InsnFormat

unfoldable pub insn_format : Opcode → InsnFormat
insn_format Opcode.nop = f10x
insn_format Opcode.move = f12x
insn_format Opcode.move_from16 = f22x
insn_format Opcode.move16 = f32x
insn_format Opcode.move_wide = f12x
insn_format Opcode.move_wide_from16 = f22x
insn_format Opcode.move_wide16 = f32x
insn_format Opcode.move_object = f12x
insn_format Opcode.move_object_from16 = f22x
insn_format Opcode.move_object16 = f32x
insn_format Opcode.move_result = f11x
insn_format Opcode.move_result_wide = f11x
insn_format Opcode.move_result_object = f11x
insn_format Opcode.move_exception = f11x
insn_format Opcode.return_void = f10x
insn_format Opcode.return = f11x
insn_format Opcode.return_wide = f11x
insn_format Opcode.return_object = f11x
insn_format Opcode.const4 = f11n
insn_format Opcode.const16 = f21s
insn_format Opcode.const = f31i
insn_format Opcode.const_high16 = f21h
insn_format Opcode.const_wide16 = f21s
insn_format Opcode.const_wide32 = f31i
insn_format Opcode.const_wide = f51l
insn_format Opcode.const_wide_high16 = f21h
insn_format Opcode.const_string = f21c
insn_format Opcode.const_string_jumbo = f31c
insn_format Opcode.const_class = f21c
insn_format Opcode.monitor_enter = f11x
insn_format Opcode.monitor_exit = f11x
insn_format Opcode.check_cast = f21c
insn_format Opcode.instance_of = f22c
insn_format Opcode.array_length = f12x
insn_format Opcode.new_instance = f21c
insn_format Opcode.new_array = f22c
insn_format Opcode.filled_new_array = f35c
insn_format Opcode.filled_new_array_range = f3rc
insn_format Opcode.fill_array_data = f31t
insn_format Opcode.throw = f11x
insn_format Opcode.goto = f10t
insn_format Opcode.goto16 = f20t
insn_format Opcode.goto32 = f30t
insn_format Opcode.packed_switch = f31t
insn_format Opcode.sparse_switch = f31t
insn_format Opcode.cmpl_float = f23x
insn_format Opcode.cmpg_float = f23x
insn_format Opcode.cmpl_double = f23x
insn_format Opcode.cmpg_double = f23x
insn_format Opcode.cmp_long = f23x
insn_format Opcode.if_eq = f22t
insn_format Opcode.if_ne = f22t
insn_format Opcode.if_lt = f22t
insn_format Opcode.if_ge = f22t
insn_format Opcode.if_gt = f22t
insn_format Opcode.if_le = f22t
insn_format Opcode.if_eqz = f21t
insn_format Opcode.if_nez = f21t
insn_format Opcode.if_ltz = f21t
insn_format Opcode.if_gez = f21t
insn_format Opcode.if_gtz = f21t
insn_format Opcode.if_lez = f21t
insn_format Opcode.aget = f23x
insn_format Opcode.aget_wide = f23x
insn_format Opcode.aget_object = f23x
insn_format Opcode.aget_boolean = f23x
insn_format Opcode.aget_byte = f23x
insn_format Opcode.aget_char = f23x
insn_format Opcode.aget_short = f23x
insn_format Opcode.aput = f23x
insn_format Opcode.aput_wide = f23x
insn_format Opcode.aput_object = f23x
insn_format Opcode.aput_boolean = f23x
insn_format Opcode.aput_byte = f23x
insn_format Opcode.aput_char = f23x
insn_format Opcode.aput_short = f23x
insn_format Opcode.iget = f22c
insn_format Opcode.iget_wide = f22c
insn_format Opcode.iget_object = f22c
insn_format Opcode.iget_boolean = f22c
insn_format Opcode.iget_byte = f22c
insn_format Opcode.iget_char = f22c
insn_format Opcode.iget_short = f22c
insn_format Opcode.iput = f22c
insn_format Opcode.iput_wide = f22c
insn_format Opcode.iput_object = f22c
insn_format Opcode.iput_boolean = f22c
insn_format Opcode.iput_byte = f22c
insn_format Opcode.iput_char = f22c
insn_format Opcode.iput_short = f22c
insn_format Opcode.sget = f21c
insn_format Opcode.sget_wide = f21c
insn_format Opcode.sget_object = f21c
insn_format Opcode.sget_boolean = f21c
insn_format Opcode.sget_byte = f21c
insn_format Opcode.sget_char = f21c
insn_format Opcode.sget_short = f21c
insn_format Opcode.sput = f21c
insn_format Opcode.sput_wide = f21c
insn_format Opcode.sput_object = f21c
insn_format Opcode.sput_boolean = f21c
insn_format Opcode.sput_byte = f21c
insn_format Opcode.sput_char = f21c
insn_format Opcode.sput_short = f21c
insn_format Opcode.invoke_virtual = f35c
insn_format Opcode.invoke_super = f35c
insn_format Opcode.invoke_direct = f35c
insn_format Opcode.invoke_static = f35c
insn_format Opcode.invoke_interface = f35c
insn_format Opcode.invoke_virtual_range = f3rc
insn_format Opcode.invoke_super_range = f3rc
insn_format Opcode.invoke_direct_range = f3rc
insn_format Opcode.invoke_static_range = f3rc
insn_format Opcode.invoke_interface_range = f3rc
insn_format Opcode.neg_int = f12x
insn_format Opcode.not_int = f12x
insn_format Opcode.neg_long = f12x
insn_format Opcode.not_long = f12x
insn_format Opcode.neg_float = f12x
insn_format Opcode.neg_double = f12x
insn_format Opcode.int_to_long = f12x
insn_format Opcode.int_to_float = f12x
insn_format Opcode.int_to_double = f12x
insn_format Opcode.long_to_int = f12x
insn_format Opcode.long_to_float = f12x
insn_format Opcode.long_to_double = f12x
insn_format Opcode.float_to_int = f12x
insn_format Opcode.float_to_long = f12x
insn_format Opcode.float_to_double = f12x
insn_format Opcode.double_to_int = f12x
insn_format Opcode.double_to_long = f12x
insn_format Opcode.double_to_float = f12x
insn_format Opcode.int_to_byte = f12x
insn_format Opcode.int_to_char = f12x
insn_format Opcode.int_to_short = f12x
insn_format Opcode.add_int = f23x
insn_format Opcode.sub_int = f23x
insn_format Opcode.mul_int = f23x
insn_format Opcode.div_int = f23x
insn_format Opcode.rem_int = f23x
insn_format Opcode.and_int = f23x
insn_format Opcode.or_int = f23x
insn_format Opcode.xor_int = f23x
insn_format Opcode.shl_int = f23x
insn_format Opcode.shr_int = f23x
insn_format Opcode.ushr_int = f23x
insn_format Opcode.add_long = f23x
insn_format Opcode.sub_long = f23x
insn_format Opcode.mul_long = f23x
insn_format Opcode.div_long = f23x
insn_format Opcode.rem_long = f23x
insn_format Opcode.and_long = f23x
insn_format Opcode.or_long = f23x
insn_format Opcode.xor_long = f23x
insn_format Opcode.shl_long = f23x
insn_format Opcode.shr_long = f23x
insn_format Opcode.ushr_long = f23x
insn_format Opcode.add_float = f23x
insn_format Opcode.sub_float = f23x
insn_format Opcode.mul_float = f23x
insn_format Opcode.div_float = f23x
insn_format Opcode.rem_float = f23x
insn_format Opcode.add_double = f23x
insn_format Opcode.sub_double = f23x
insn_format Opcode.mul_double = f23x
insn_format Opcode.div_double = f23x
insn_format Opcode.rem_double = f23x
insn_format Opcode.add_int_2addr = f12x
insn_format Opcode.sub_int_2addr = f12x
insn_format Opcode.mul_int_2addr = f12x
insn_format Opcode.div_int_2addr = f12x
insn_format Opcode.rem_int_2addr = f12x
insn_format Opcode.and_int_2addr = f12x
insn_format Opcode.or_int_2addr = f12x
insn_format Opcode.xor_int_2addr = f12x
insn_format Opcode.shl_int_2addr = f12x
insn_format Opcode.shr_int_2addr = f12x
insn_format Opcode.ushr_int_2addr = f12x
insn_format Opcode.add_long_2addr = f12x
insn_format Opcode.sub_long_2addr = f12x
insn_format Opcode.mul_long_2addr = f12x
insn_format Opcode.div_long_2addr = f12x
insn_format Opcode.rem_long_2addr = f12x
insn_format Opcode.and_long_2addr = f12x
insn_format Opcode.or_long_2addr = f12x
insn_format Opcode.xor_long_2addr = f12x
insn_format Opcode.shl_long_2addr = f12x
insn_format Opcode.shr_long_2addr = f12x
insn_format Opcode.ushr_long_2addr = f12x
insn_format Opcode.add_float_2addr = f12x
insn_format Opcode.sub_float_2addr = f12x
insn_format Opcode.mul_float_2addr = f12x
insn_format Opcode.div_float_2addr = f12x
insn_format Opcode.rem_float_2addr = f12x
insn_format Opcode.add_double_2addr = f12x
insn_format Opcode.sub_double_2addr = f12x
insn_format Opcode.mul_double_2addr = f12x
insn_format Opcode.div_double_2addr = f12x
insn_format Opcode.rem_double_2addr = f12x
insn_format Opcode.add_int_lit16 = f22s
insn_format Opcode.rsub_int = f22s
insn_format Opcode.mul_int_lit16 = f22s
insn_format Opcode.div_int_lit16 = f22s
insn_format Opcode.rem_int_lit16 = f22s
insn_format Opcode.and_int_lit16 = f22s
insn_format Opcode.or_int_lit16 = f22s
insn_format Opcode.xor_int_lit16 = f22s
insn_format Opcode.add_int_lit8 = f22b
insn_format Opcode.rsub_int_lit8 = f22b
insn_format Opcode.mul_int_lit8 = f22b
insn_format Opcode.div_int_lit8 = f22b
insn_format Opcode.rem_int_lit8 = f22b
insn_format Opcode.and_int_lit8 = f22b
insn_format Opcode.or_int_lit8 = f22b
insn_format Opcode.xor_int_lit8 = f22b
insn_format Opcode.shl_int_lit8 = f22b
insn_format Opcode.shr_int_lit8 = f22b
insn_format Opcode.ushr_int_lit8 = f22b
insn_format Opcode.invoke_polymorphic = f45cc
insn_format Opcode.invoke_polymorphic_range = f4rcc
insn_format Opcode.invoke_custom = f35c
insn_format Opcode.invoke_custom_range = f3rc
insn_format Opcode.const_method_handle = f21c
insn_format Opcode.const_method_type = f21c

-- The number of 16-bit code units that an instruction of the format takes.
unfoldable pub format_size : InsnFormat → ℕ
format_size f10x = 1
format_size f12x = 1
format_size f11n = 1
format_size f11x = 1
format_size f10t = 1
format_size f20t = 2
format_size f22x = 2
format_size f21t = 2
format_size f21s = 2
format_size f21h = 2
format_size f21c = 2
format_size f23x = 2
format_size f22t = 2
format_size f22s = 2
format_size f22c = 2
format_size f22b = 2
format_size f30t = 3
format_size f32x = 3
format_size f31i = 3
format_size f31t = 3
format_size f31c = 3
format_size f35c = 3
format_size f3rc = 3
format_size f45cc = 4
format_size f4rcc = 4
format_size f51l = 5

-- ===== src/Opcodes/Bytes.antt =====
-- src/opcodes.rs: the byte of each opcode, both ways.
use droidsaw_dex.Prelude.{ℕ, Option, none, some, List, [], ◌∷◌, ◌==◌, if◌then◌else◌}
use droidsaw_dex.Opcodes.{Opcode}

-- The discriminant of `#[repr(u8)]`.
unfoldable pub to_u8 : Opcode → ℕ
to_u8 Opcode.nop = 0x00
to_u8 Opcode.move = 0x01
to_u8 Opcode.move_from16 = 0x02
to_u8 Opcode.move16 = 0x03
to_u8 Opcode.move_wide = 0x04
to_u8 Opcode.move_wide_from16 = 0x05
to_u8 Opcode.move_wide16 = 0x06
to_u8 Opcode.move_object = 0x07
to_u8 Opcode.move_object_from16 = 0x08
to_u8 Opcode.move_object16 = 0x09
to_u8 Opcode.move_result = 0x0a
to_u8 Opcode.move_result_wide = 0x0b
to_u8 Opcode.move_result_object = 0x0c
to_u8 Opcode.move_exception = 0x0d
to_u8 Opcode.return_void = 0x0e
to_u8 Opcode.return = 0x0f
to_u8 Opcode.return_wide = 0x10
to_u8 Opcode.return_object = 0x11
to_u8 Opcode.const4 = 0x12
to_u8 Opcode.const16 = 0x13
to_u8 Opcode.const = 0x14
to_u8 Opcode.const_high16 = 0x15
to_u8 Opcode.const_wide16 = 0x16
to_u8 Opcode.const_wide32 = 0x17
to_u8 Opcode.const_wide = 0x18
to_u8 Opcode.const_wide_high16 = 0x19
to_u8 Opcode.const_string = 0x1a
to_u8 Opcode.const_string_jumbo = 0x1b
to_u8 Opcode.const_class = 0x1c
to_u8 Opcode.monitor_enter = 0x1d
to_u8 Opcode.monitor_exit = 0x1e
to_u8 Opcode.check_cast = 0x1f
to_u8 Opcode.instance_of = 0x20
to_u8 Opcode.array_length = 0x21
to_u8 Opcode.new_instance = 0x22
to_u8 Opcode.new_array = 0x23
to_u8 Opcode.filled_new_array = 0x24
to_u8 Opcode.filled_new_array_range = 0x25
to_u8 Opcode.fill_array_data = 0x26
to_u8 Opcode.throw = 0x27
to_u8 Opcode.goto = 0x28
to_u8 Opcode.goto16 = 0x29
to_u8 Opcode.goto32 = 0x2a
to_u8 Opcode.packed_switch = 0x2b
to_u8 Opcode.sparse_switch = 0x2c
to_u8 Opcode.cmpl_float = 0x2d
to_u8 Opcode.cmpg_float = 0x2e
to_u8 Opcode.cmpl_double = 0x2f
to_u8 Opcode.cmpg_double = 0x30
to_u8 Opcode.cmp_long = 0x31
to_u8 Opcode.if_eq = 0x32
to_u8 Opcode.if_ne = 0x33
to_u8 Opcode.if_lt = 0x34
to_u8 Opcode.if_ge = 0x35
to_u8 Opcode.if_gt = 0x36
to_u8 Opcode.if_le = 0x37
to_u8 Opcode.if_eqz = 0x38
to_u8 Opcode.if_nez = 0x39
to_u8 Opcode.if_ltz = 0x3a
to_u8 Opcode.if_gez = 0x3b
to_u8 Opcode.if_gtz = 0x3c
to_u8 Opcode.if_lez = 0x3d
to_u8 Opcode.aget = 0x44
to_u8 Opcode.aget_wide = 0x45
to_u8 Opcode.aget_object = 0x46
to_u8 Opcode.aget_boolean = 0x47
to_u8 Opcode.aget_byte = 0x48
to_u8 Opcode.aget_char = 0x49
to_u8 Opcode.aget_short = 0x4a
to_u8 Opcode.aput = 0x4b
to_u8 Opcode.aput_wide = 0x4c
to_u8 Opcode.aput_object = 0x4d
to_u8 Opcode.aput_boolean = 0x4e
to_u8 Opcode.aput_byte = 0x4f
to_u8 Opcode.aput_char = 0x50
to_u8 Opcode.aput_short = 0x51
to_u8 Opcode.iget = 0x52
to_u8 Opcode.iget_wide = 0x53
to_u8 Opcode.iget_object = 0x54
to_u8 Opcode.iget_boolean = 0x55
to_u8 Opcode.iget_byte = 0x56
to_u8 Opcode.iget_char = 0x57
to_u8 Opcode.iget_short = 0x58
to_u8 Opcode.iput = 0x59
to_u8 Opcode.iput_wide = 0x5a
to_u8 Opcode.iput_object = 0x5b
to_u8 Opcode.iput_boolean = 0x5c
to_u8 Opcode.iput_byte = 0x5d
to_u8 Opcode.iput_char = 0x5e
to_u8 Opcode.iput_short = 0x5f
to_u8 Opcode.sget = 0x60
to_u8 Opcode.sget_wide = 0x61
to_u8 Opcode.sget_object = 0x62
to_u8 Opcode.sget_boolean = 0x63
to_u8 Opcode.sget_byte = 0x64
to_u8 Opcode.sget_char = 0x65
to_u8 Opcode.sget_short = 0x66
to_u8 Opcode.sput = 0x67
to_u8 Opcode.sput_wide = 0x68
to_u8 Opcode.sput_object = 0x69
to_u8 Opcode.sput_boolean = 0x6a
to_u8 Opcode.sput_byte = 0x6b
to_u8 Opcode.sput_char = 0x6c
to_u8 Opcode.sput_short = 0x6d
to_u8 Opcode.invoke_virtual = 0x6e
to_u8 Opcode.invoke_super = 0x6f
to_u8 Opcode.invoke_direct = 0x70
to_u8 Opcode.invoke_static = 0x71
to_u8 Opcode.invoke_interface = 0x72
to_u8 Opcode.invoke_virtual_range = 0x74
to_u8 Opcode.invoke_super_range = 0x75
to_u8 Opcode.invoke_direct_range = 0x76
to_u8 Opcode.invoke_static_range = 0x77
to_u8 Opcode.invoke_interface_range = 0x78
to_u8 Opcode.neg_int = 0x7b
to_u8 Opcode.not_int = 0x7c
to_u8 Opcode.neg_long = 0x7d
to_u8 Opcode.not_long = 0x7e
to_u8 Opcode.neg_float = 0x7f
to_u8 Opcode.neg_double = 0x80
to_u8 Opcode.int_to_long = 0x81
to_u8 Opcode.int_to_float = 0x82
to_u8 Opcode.int_to_double = 0x83
to_u8 Opcode.long_to_int = 0x84
to_u8 Opcode.long_to_float = 0x85
to_u8 Opcode.long_to_double = 0x86
to_u8 Opcode.float_to_int = 0x87
to_u8 Opcode.float_to_long = 0x88
to_u8 Opcode.float_to_double = 0x89
to_u8 Opcode.double_to_int = 0x8a
to_u8 Opcode.double_to_long = 0x8b
to_u8 Opcode.double_to_float = 0x8c
to_u8 Opcode.int_to_byte = 0x8d
to_u8 Opcode.int_to_char = 0x8e
to_u8 Opcode.int_to_short = 0x8f
to_u8 Opcode.add_int = 0x90
to_u8 Opcode.sub_int = 0x91
to_u8 Opcode.mul_int = 0x92
to_u8 Opcode.div_int = 0x93
to_u8 Opcode.rem_int = 0x94
to_u8 Opcode.and_int = 0x95
to_u8 Opcode.or_int = 0x96
to_u8 Opcode.xor_int = 0x97
to_u8 Opcode.shl_int = 0x98
to_u8 Opcode.shr_int = 0x99
to_u8 Opcode.ushr_int = 0x9a
to_u8 Opcode.add_long = 0x9b
to_u8 Opcode.sub_long = 0x9c
to_u8 Opcode.mul_long = 0x9d
to_u8 Opcode.div_long = 0x9e
to_u8 Opcode.rem_long = 0x9f
to_u8 Opcode.and_long = 0xa0
to_u8 Opcode.or_long = 0xa1
to_u8 Opcode.xor_long = 0xa2
to_u8 Opcode.shl_long = 0xa3
to_u8 Opcode.shr_long = 0xa4
to_u8 Opcode.ushr_long = 0xa5
to_u8 Opcode.add_float = 0xa6
to_u8 Opcode.sub_float = 0xa7
to_u8 Opcode.mul_float = 0xa8
to_u8 Opcode.div_float = 0xa9
to_u8 Opcode.rem_float = 0xaa
to_u8 Opcode.add_double = 0xab
to_u8 Opcode.sub_double = 0xac
to_u8 Opcode.mul_double = 0xad
to_u8 Opcode.div_double = 0xae
to_u8 Opcode.rem_double = 0xaf
to_u8 Opcode.add_int_2addr = 0xb0
to_u8 Opcode.sub_int_2addr = 0xb1
to_u8 Opcode.mul_int_2addr = 0xb2
to_u8 Opcode.div_int_2addr = 0xb3
to_u8 Opcode.rem_int_2addr = 0xb4
to_u8 Opcode.and_int_2addr = 0xb5
to_u8 Opcode.or_int_2addr = 0xb6
to_u8 Opcode.xor_int_2addr = 0xb7
to_u8 Opcode.shl_int_2addr = 0xb8
to_u8 Opcode.shr_int_2addr = 0xb9
to_u8 Opcode.ushr_int_2addr = 0xba
to_u8 Opcode.add_long_2addr = 0xbb
to_u8 Opcode.sub_long_2addr = 0xbc
to_u8 Opcode.mul_long_2addr = 0xbd
to_u8 Opcode.div_long_2addr = 0xbe
to_u8 Opcode.rem_long_2addr = 0xbf
to_u8 Opcode.and_long_2addr = 0xc0
to_u8 Opcode.or_long_2addr = 0xc1
to_u8 Opcode.xor_long_2addr = 0xc2
to_u8 Opcode.shl_long_2addr = 0xc3
to_u8 Opcode.shr_long_2addr = 0xc4
to_u8 Opcode.ushr_long_2addr = 0xc5
to_u8 Opcode.add_float_2addr = 0xc6
to_u8 Opcode.sub_float_2addr = 0xc7
to_u8 Opcode.mul_float_2addr = 0xc8
to_u8 Opcode.div_float_2addr = 0xc9
to_u8 Opcode.rem_float_2addr = 0xca
to_u8 Opcode.add_double_2addr = 0xcb
to_u8 Opcode.sub_double_2addr = 0xcc
to_u8 Opcode.mul_double_2addr = 0xcd
to_u8 Opcode.div_double_2addr = 0xce
to_u8 Opcode.rem_double_2addr = 0xcf
to_u8 Opcode.add_int_lit16 = 0xd0
to_u8 Opcode.rsub_int = 0xd1
to_u8 Opcode.mul_int_lit16 = 0xd2
to_u8 Opcode.div_int_lit16 = 0xd3
to_u8 Opcode.rem_int_lit16 = 0xd4
to_u8 Opcode.and_int_lit16 = 0xd5
to_u8 Opcode.or_int_lit16 = 0xd6
to_u8 Opcode.xor_int_lit16 = 0xd7
to_u8 Opcode.add_int_lit8 = 0xd8
to_u8 Opcode.rsub_int_lit8 = 0xd9
to_u8 Opcode.mul_int_lit8 = 0xda
to_u8 Opcode.div_int_lit8 = 0xdb
to_u8 Opcode.rem_int_lit8 = 0xdc
to_u8 Opcode.and_int_lit8 = 0xdd
to_u8 Opcode.or_int_lit8 = 0xde
to_u8 Opcode.xor_int_lit8 = 0xdf
to_u8 Opcode.shl_int_lit8 = 0xe0
to_u8 Opcode.shr_int_lit8 = 0xe1
to_u8 Opcode.ushr_int_lit8 = 0xe2
to_u8 Opcode.invoke_polymorphic = 0xfa
to_u8 Opcode.invoke_polymorphic_range = 0xfb
to_u8 Opcode.invoke_custom = 0xfc
to_u8 Opcode.invoke_custom_range = 0xfd
to_u8 Opcode.const_method_handle = 0xfe
to_u8 Opcode.const_method_type = 0xff

-- The arms of the match in `from_u8`, in order.
abbrev pub opcode_arms : List (ℕ × Opcode)
opcode_arms =
    (0x00, Opcode.nop)
    ∷ (0x01, Opcode.move)
    ∷ (0x02, Opcode.move_from16)
    ∷ (0x03, Opcode.move16)
    ∷ (0x04, Opcode.move_wide)
    ∷ (0x05, Opcode.move_wide_from16)
    ∷ (0x06, Opcode.move_wide16)
    ∷ (0x07, Opcode.move_object)
    ∷ (0x08, Opcode.move_object_from16)
    ∷ (0x09, Opcode.move_object16)
    ∷ (0x0a, Opcode.move_result)
    ∷ (0x0b, Opcode.move_result_wide)
    ∷ (0x0c, Opcode.move_result_object)
    ∷ (0x0d, Opcode.move_exception)
    ∷ (0x0e, Opcode.return_void)
    ∷ (0x0f, Opcode.return)
    ∷ (0x10, Opcode.return_wide)
    ∷ (0x11, Opcode.return_object)
    ∷ (0x12, Opcode.const4)
    ∷ (0x13, Opcode.const16)
    ∷ (0x14, Opcode.const)
    ∷ (0x15, Opcode.const_high16)
    ∷ (0x16, Opcode.const_wide16)
    ∷ (0x17, Opcode.const_wide32)
    ∷ (0x18, Opcode.const_wide)
    ∷ (0x19, Opcode.const_wide_high16)
    ∷ (0x1a, Opcode.const_string)
    ∷ (0x1b, Opcode.const_string_jumbo)
    ∷ (0x1c, Opcode.const_class)
    ∷ (0x1d, Opcode.monitor_enter)
    ∷ (0x1e, Opcode.monitor_exit)
    ∷ (0x1f, Opcode.check_cast)
    ∷ (0x20, Opcode.instance_of)
    ∷ (0x21, Opcode.array_length)
    ∷ (0x22, Opcode.new_instance)
    ∷ (0x23, Opcode.new_array)
    ∷ (0x24, Opcode.filled_new_array)
    ∷ (0x25, Opcode.filled_new_array_range)
    ∷ (0x26, Opcode.fill_array_data)
    ∷ (0x27, Opcode.throw)
    ∷ (0x28, Opcode.goto)
    ∷ (0x29, Opcode.goto16)
    ∷ (0x2a, Opcode.goto32)
    ∷ (0x2b, Opcode.packed_switch)
    ∷ (0x2c, Opcode.sparse_switch)
    ∷ (0x2d, Opcode.cmpl_float)
    ∷ (0x2e, Opcode.cmpg_float)
    ∷ (0x2f, Opcode.cmpl_double)
    ∷ (0x30, Opcode.cmpg_double)
    ∷ (0x31, Opcode.cmp_long)
    ∷ (0x32, Opcode.if_eq)
    ∷ (0x33, Opcode.if_ne)
    ∷ (0x34, Opcode.if_lt)
    ∷ (0x35, Opcode.if_ge)
    ∷ (0x36, Opcode.if_gt)
    ∷ (0x37, Opcode.if_le)
    ∷ (0x38, Opcode.if_eqz)
    ∷ (0x39, Opcode.if_nez)
    ∷ (0x3a, Opcode.if_ltz)
    ∷ (0x3b, Opcode.if_gez)
    ∷ (0x3c, Opcode.if_gtz)
    ∷ (0x3d, Opcode.if_lez)
    ∷ (0x44, Opcode.aget)
    ∷ (0x45, Opcode.aget_wide)
    ∷ (0x46, Opcode.aget_object)
    ∷ (0x47, Opcode.aget_boolean)
    ∷ (0x48, Opcode.aget_byte)
    ∷ (0x49, Opcode.aget_char)
    ∷ (0x4a, Opcode.aget_short)
    ∷ (0x4b, Opcode.aput)
    ∷ (0x4c, Opcode.aput_wide)
    ∷ (0x4d, Opcode.aput_object)
    ∷ (0x4e, Opcode.aput_boolean)
    ∷ (0x4f, Opcode.aput_byte)
    ∷ (0x50, Opcode.aput_char)
    ∷ (0x51, Opcode.aput_short)
    ∷ (0x52, Opcode.iget)
    ∷ (0x53, Opcode.iget_wide)
    ∷ (0x54, Opcode.iget_object)
    ∷ (0x55, Opcode.iget_boolean)
    ∷ (0x56, Opcode.iget_byte)
    ∷ (0x57, Opcode.iget_char)
    ∷ (0x58, Opcode.iget_short)
    ∷ (0x59, Opcode.iput)
    ∷ (0x5a, Opcode.iput_wide)
    ∷ (0x5b, Opcode.iput_object)
    ∷ (0x5c, Opcode.iput_boolean)
    ∷ (0x5d, Opcode.iput_byte)
    ∷ (0x5e, Opcode.iput_char)
    ∷ (0x5f, Opcode.iput_short)
    ∷ (0x60, Opcode.sget)
    ∷ (0x61, Opcode.sget_wide)
    ∷ (0x62, Opcode.sget_object)
    ∷ (0x63, Opcode.sget_boolean)
    ∷ (0x64, Opcode.sget_byte)
    ∷ (0x65, Opcode.sget_char)
    ∷ (0x66, Opcode.sget_short)
    ∷ (0x67, Opcode.sput)
    ∷ (0x68, Opcode.sput_wide)
    ∷ (0x69, Opcode.sput_object)
    ∷ (0x6a, Opcode.sput_boolean)
    ∷ (0x6b, Opcode.sput_byte)
    ∷ (0x6c, Opcode.sput_char)
    ∷ (0x6d, Opcode.sput_short)
    ∷ (0x6e, Opcode.invoke_virtual)
    ∷ (0x6f, Opcode.invoke_super)
    ∷ (0x70, Opcode.invoke_direct)
    ∷ (0x71, Opcode.invoke_static)
    ∷ (0x72, Opcode.invoke_interface)
    ∷ (0x74, Opcode.invoke_virtual_range)
    ∷ (0x75, Opcode.invoke_super_range)
    ∷ (0x76, Opcode.invoke_direct_range)
    ∷ (0x77, Opcode.invoke_static_range)
    ∷ (0x78, Opcode.invoke_interface_range)
    ∷ (0x7b, Opcode.neg_int)
    ∷ (0x7c, Opcode.not_int)
    ∷ (0x7d, Opcode.neg_long)
    ∷ (0x7e, Opcode.not_long)
    ∷ (0x7f, Opcode.neg_float)
    ∷ (0x80, Opcode.neg_double)
    ∷ (0x81, Opcode.int_to_long)
    ∷ (0x82, Opcode.int_to_float)
    ∷ (0x83, Opcode.int_to_double)
    ∷ (0x84, Opcode.long_to_int)
    ∷ (0x85, Opcode.long_to_float)
    ∷ (0x86, Opcode.long_to_double)
    ∷ (0x87, Opcode.float_to_int)
    ∷ (0x88, Opcode.float_to_long)
    ∷ (0x89, Opcode.float_to_double)
    ∷ (0x8a, Opcode.double_to_int)
    ∷ (0x8b, Opcode.double_to_long)
    ∷ (0x8c, Opcode.double_to_float)
    ∷ (0x8d, Opcode.int_to_byte)
    ∷ (0x8e, Opcode.int_to_char)
    ∷ (0x8f, Opcode.int_to_short)
    ∷ (0x90, Opcode.add_int)
    ∷ (0x91, Opcode.sub_int)
    ∷ (0x92, Opcode.mul_int)
    ∷ (0x93, Opcode.div_int)
    ∷ (0x94, Opcode.rem_int)
    ∷ (0x95, Opcode.and_int)
    ∷ (0x96, Opcode.or_int)
    ∷ (0x97, Opcode.xor_int)
    ∷ (0x98, Opcode.shl_int)
    ∷ (0x99, Opcode.shr_int)
    ∷ (0x9a, Opcode.ushr_int)
    ∷ (0x9b, Opcode.add_long)
    ∷ (0x9c, Opcode.sub_long)
    ∷ (0x9d, Opcode.mul_long)
    ∷ (0x9e, Opcode.div_long)
    ∷ (0x9f, Opcode.rem_long)
    ∷ (0xa0, Opcode.and_long)
    ∷ (0xa1, Opcode.or_long)
    ∷ (0xa2, Opcode.xor_long)
    ∷ (0xa3, Opcode.shl_long)
    ∷ (0xa4, Opcode.shr_long)
    ∷ (0xa5, Opcode.ushr_long)
    ∷ (0xa6, Opcode.add_float)
    ∷ (0xa7, Opcode.sub_float)
    ∷ (0xa8, Opcode.mul_float)
    ∷ (0xa9, Opcode.div_float)
    ∷ (0xaa, Opcode.rem_float)
    ∷ (0xab, Opcode.add_double)
    ∷ (0xac, Opcode.sub_double)
    ∷ (0xad, Opcode.mul_double)
    ∷ (0xae, Opcode.div_double)
    ∷ (0xaf, Opcode.rem_double)
    ∷ (0xb0, Opcode.add_int_2addr)
    ∷ (0xb1, Opcode.sub_int_2addr)
    ∷ (0xb2, Opcode.mul_int_2addr)
    ∷ (0xb3, Opcode.div_int_2addr)
    ∷ (0xb4, Opcode.rem_int_2addr)
    ∷ (0xb5, Opcode.and_int_2addr)
    ∷ (0xb6, Opcode.or_int_2addr)
    ∷ (0xb7, Opcode.xor_int_2addr)
    ∷ (0xb8, Opcode.shl_int_2addr)
    ∷ (0xb9, Opcode.shr_int_2addr)
    ∷ (0xba, Opcode.ushr_int_2addr)
    ∷ (0xbb, Opcode.add_long_2addr)
    ∷ (0xbc, Opcode.sub_long_2addr)
    ∷ (0xbd, Opcode.mul_long_2addr)
    ∷ (0xbe, Opcode.div_long_2addr)
    ∷ (0xbf, Opcode.rem_long_2addr)
    ∷ (0xc0, Opcode.and_long_2addr)
    ∷ (0xc1, Opcode.or_long_2addr)
    ∷ (0xc2, Opcode.xor_long_2addr)
    ∷ (0xc3, Opcode.shl_long_2addr)
    ∷ (0xc4, Opcode.shr_long_2addr)
    ∷ (0xc5, Opcode.ushr_long_2addr)
    ∷ (0xc6, Opcode.add_float_2addr)
    ∷ (0xc7, Opcode.sub_float_2addr)
    ∷ (0xc8, Opcode.mul_float_2addr)
    ∷ (0xc9, Opcode.div_float_2addr)
    ∷ (0xca, Opcode.rem_float_2addr)
    ∷ (0xcb, Opcode.add_double_2addr)
    ∷ (0xcc, Opcode.sub_double_2addr)
    ∷ (0xcd, Opcode.mul_double_2addr)
    ∷ (0xce, Opcode.div_double_2addr)
    ∷ (0xcf, Opcode.rem_double_2addr)
    ∷ (0xd0, Opcode.add_int_lit16)
    ∷ (0xd1, Opcode.rsub_int)
    ∷ (0xd2, Opcode.mul_int_lit16)
    ∷ (0xd3, Opcode.div_int_lit16)
    ∷ (0xd4, Opcode.rem_int_lit16)
    ∷ (0xd5, Opcode.and_int_lit16)
    ∷ (0xd6, Opcode.or_int_lit16)
    ∷ (0xd7, Opcode.xor_int_lit16)
    ∷ (0xd8, Opcode.add_int_lit8)
    ∷ (0xd9, Opcode.rsub_int_lit8)
    ∷ (0xda, Opcode.mul_int_lit8)
    ∷ (0xdb, Opcode.div_int_lit8)
    ∷ (0xdc, Opcode.rem_int_lit8)
    ∷ (0xdd, Opcode.and_int_lit8)
    ∷ (0xde, Opcode.or_int_lit8)
    ∷ (0xdf, Opcode.xor_int_lit8)
    ∷ (0xe0, Opcode.shl_int_lit8)
    ∷ (0xe1, Opcode.shr_int_lit8)
    ∷ (0xe2, Opcode.ushr_int_lit8)
    ∷ (0xfa, Opcode.invoke_polymorphic)
    ∷ (0xfb, Opcode.invoke_polymorphic_range)
    ∷ (0xfc, Opcode.invoke_custom)
    ∷ (0xfd, Opcode.invoke_custom_range)
    ∷ (0xfe, Opcode.const_method_handle)
    ∷ (0xff, Opcode.const_method_type)
    ∷ []

unfoldable pub find_arm : ℕ → List (ℕ × Opcode) → Option Opcode
find_arm byte [] = none
find_arm byte ((b, op) ∷ arms) = if byte == b then some op else find_arm byte arms

unfoldable pub from_u8 : ℕ → Option Opcode
unfolding find_arm
from_u8 byte = find_arm byte opcode_arms

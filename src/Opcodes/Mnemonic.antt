-- ===== src/Opcodes/Mnemonic.antt =====
-- src/opcodes.rs: `Opcode::mnemonic`.
use Prim.Native.String.{String}
use droidsaw_dex.Opcodes.{Opcode}

unfoldable pub mnemonic : Opcode → String
mnemonic Opcode.nop = "nop"
mnemonic Opcode.move = "move"
mnemonic Opcode.move_from16 = "move/from16"
mnemonic Opcode.move16 = "move/16"
mnemonic Opcode.move_wide = "move-wide"
mnemonic Opcode.move_wide_from16 = "move-wide/from16"
mnemonic Opcode.move_wide16 = "move-wide/16"
mnemonic Opcode.move_object = "move-object"
mnemonic Opcode.move_object_from16 = "move-object/from16"
mnemonic Opcode.move_object16 = "move-object/16"
mnemonic Opcode.move_result = "move-result"
mnemonic Opcode.move_result_wide = "move-result-wide"
mnemonic Opcode.move_result_object = "move-result-object"
mnemonic Opcode.move_exception = "move-exception"
mnemonic Opcode.return_void = "return-void"
mnemonic Opcode.return = "return"
mnemonic Opcode.return_wide = "return-wide"
mnemonic Opcode.return_object = "return-object"
mnemonic Opcode.const4 = "const/4"
mnemonic Opcode.const16 = "const/16"
mnemonic Opcode.const = "const"
mnemonic Opcode.const_high16 = "const/high16"
mnemonic Opcode.const_wide16 = "const-wide/16"
mnemonic Opcode.const_wide32 = "const-wide/32"
mnemonic Opcode.const_wide = "const-wide"
mnemonic Opcode.const_wide_high16 = "const-wide/high16"
mnemonic Opcode.const_string = "const-string"
mnemonic Opcode.const_string_jumbo = "const-string/jumbo"
mnemonic Opcode.const_class = "const-class"
mnemonic Opcode.monitor_enter = "monitor-enter"
mnemonic Opcode.monitor_exit = "monitor-exit"
mnemonic Opcode.check_cast = "check-cast"
mnemonic Opcode.instance_of = "instance-of"
mnemonic Opcode.array_length = "array-length"
mnemonic Opcode.new_instance = "new-instance"
mnemonic Opcode.new_array = "new-array"
mnemonic Opcode.filled_new_array = "filled-new-array"
mnemonic Opcode.filled_new_array_range = "filled-new-array/range"
mnemonic Opcode.fill_array_data = "fill-array-data"
mnemonic Opcode.throw = "throw"
mnemonic Opcode.goto = "goto"
mnemonic Opcode.goto16 = "goto/16"
mnemonic Opcode.goto32 = "goto/32"
mnemonic Opcode.packed_switch = "packed-switch"
mnemonic Opcode.sparse_switch = "sparse-switch"
mnemonic Opcode.cmpl_float = "cmpl-float"
mnemonic Opcode.cmpg_float = "cmpg-float"
mnemonic Opcode.cmpl_double = "cmpl-double"
mnemonic Opcode.cmpg_double = "cmpg-double"
mnemonic Opcode.cmp_long = "cmp-long"
mnemonic Opcode.if_eq = "if-eq"
mnemonic Opcode.if_ne = "if-ne"
mnemonic Opcode.if_lt = "if-lt"
mnemonic Opcode.if_ge = "if-ge"
mnemonic Opcode.if_gt = "if-gt"
mnemonic Opcode.if_le = "if-le"
mnemonic Opcode.if_eqz = "if-eqz"
mnemonic Opcode.if_nez = "if-nez"
mnemonic Opcode.if_ltz = "if-ltz"
mnemonic Opcode.if_gez = "if-gez"
mnemonic Opcode.if_gtz = "if-gtz"
mnemonic Opcode.if_lez = "if-lez"
mnemonic Opcode.aget = "aget"
mnemonic Opcode.aget_wide = "aget-wide"
mnemonic Opcode.aget_object = "aget-object"
mnemonic Opcode.aget_boolean = "aget-boolean"
mnemonic Opcode.aget_byte = "aget-byte"
mnemonic Opcode.aget_char = "aget-char"
mnemonic Opcode.aget_short = "aget-short"
mnemonic Opcode.aput = "aput"
mnemonic Opcode.aput_wide = "aput-wide"
mnemonic Opcode.aput_object = "aput-object"
mnemonic Opcode.aput_boolean = "aput-boolean"
mnemonic Opcode.aput_byte = "aput-byte"
mnemonic Opcode.aput_char = "aput-char"
mnemonic Opcode.aput_short = "aput-short"
mnemonic Opcode.iget = "iget"
mnemonic Opcode.iget_wide = "iget-wide"
mnemonic Opcode.iget_object = "iget-object"
mnemonic Opcode.iget_boolean = "iget-boolean"
mnemonic Opcode.iget_byte = "iget-byte"
mnemonic Opcode.iget_char = "iget-char"
mnemonic Opcode.iget_short = "iget-short"
mnemonic Opcode.iput = "iput"
mnemonic Opcode.iput_wide = "iput-wide"
mnemonic Opcode.iput_object = "iput-object"
mnemonic Opcode.iput_boolean = "iput-boolean"
mnemonic Opcode.iput_byte = "iput-byte"
mnemonic Opcode.iput_char = "iput-char"
mnemonic Opcode.iput_short = "iput-short"
mnemonic Opcode.sget = "sget"
mnemonic Opcode.sget_wide = "sget-wide"
mnemonic Opcode.sget_object = "sget-object"
mnemonic Opcode.sget_boolean = "sget-boolean"
mnemonic Opcode.sget_byte = "sget-byte"
mnemonic Opcode.sget_char = "sget-char"
mnemonic Opcode.sget_short = "sget-short"
mnemonic Opcode.sput = "sput"
mnemonic Opcode.sput_wide = "sput-wide"
mnemonic Opcode.sput_object = "sput-object"
mnemonic Opcode.sput_boolean = "sput-boolean"
mnemonic Opcode.sput_byte = "sput-byte"
mnemonic Opcode.sput_char = "sput-char"
mnemonic Opcode.sput_short = "sput-short"
mnemonic Opcode.invoke_virtual = "invoke-virtual"
mnemonic Opcode.invoke_super = "invoke-super"
mnemonic Opcode.invoke_direct = "invoke-direct"
mnemonic Opcode.invoke_static = "invoke-static"
mnemonic Opcode.invoke_interface = "invoke-interface"
mnemonic Opcode.invoke_virtual_range = "invoke-virtual/range"
mnemonic Opcode.invoke_super_range = "invoke-super/range"
mnemonic Opcode.invoke_direct_range = "invoke-direct/range"
mnemonic Opcode.invoke_static_range = "invoke-static/range"
mnemonic Opcode.invoke_interface_range = "invoke-interface/range"
mnemonic Opcode.neg_int = "neg-int"
mnemonic Opcode.not_int = "not-int"
mnemonic Opcode.neg_long = "neg-long"
mnemonic Opcode.not_long = "not-long"
mnemonic Opcode.neg_float = "neg-float"
mnemonic Opcode.neg_double = "neg-double"
mnemonic Opcode.int_to_long = "int-to-long"
mnemonic Opcode.int_to_float = "int-to-float"
mnemonic Opcode.int_to_double = "int-to-double"
mnemonic Opcode.long_to_int = "long-to-int"
mnemonic Opcode.long_to_float = "long-to-float"
mnemonic Opcode.long_to_double = "long-to-double"
mnemonic Opcode.float_to_int = "float-to-int"
mnemonic Opcode.float_to_long = "float-to-long"
mnemonic Opcode.float_to_double = "float-to-double"
mnemonic Opcode.double_to_int = "double-to-int"
mnemonic Opcode.double_to_long = "double-to-long"
mnemonic Opcode.double_to_float = "double-to-float"
mnemonic Opcode.int_to_byte = "int-to-byte"
mnemonic Opcode.int_to_char = "int-to-char"
mnemonic Opcode.int_to_short = "int-to-short"
mnemonic Opcode.add_int = "add-int"
mnemonic Opcode.sub_int = "sub-int"
mnemonic Opcode.mul_int = "mul-int"
mnemonic Opcode.div_int = "div-int"
mnemonic Opcode.rem_int = "rem-int"
mnemonic Opcode.and_int = "and-int"
mnemonic Opcode.or_int = "or-int"
mnemonic Opcode.xor_int = "xor-int"
mnemonic Opcode.shl_int = "shl-int"
mnemonic Opcode.shr_int = "shr-int"
mnemonic Opcode.ushr_int = "ushr-int"
mnemonic Opcode.add_long = "add-long"
mnemonic Opcode.sub_long = "sub-long"
mnemonic Opcode.mul_long = "mul-long"
mnemonic Opcode.div_long = "div-long"
mnemonic Opcode.rem_long = "rem-long"
mnemonic Opcode.and_long = "and-long"
mnemonic Opcode.or_long = "or-long"
mnemonic Opcode.xor_long = "xor-long"
mnemonic Opcode.shl_long = "shl-long"
mnemonic Opcode.shr_long = "shr-long"
mnemonic Opcode.ushr_long = "ushr-long"
mnemonic Opcode.add_float = "add-float"
mnemonic Opcode.sub_float = "sub-float"
mnemonic Opcode.mul_float = "mul-float"
mnemonic Opcode.div_float = "div-float"
mnemonic Opcode.rem_float = "rem-float"
mnemonic Opcode.add_double = "add-double"
mnemonic Opcode.sub_double = "sub-double"
mnemonic Opcode.mul_double = "mul-double"
mnemonic Opcode.div_double = "div-double"
mnemonic Opcode.rem_double = "rem-double"
mnemonic Opcode.add_int_2addr = "add-int/2addr"
mnemonic Opcode.sub_int_2addr = "sub-int/2addr"
mnemonic Opcode.mul_int_2addr = "mul-int/2addr"
mnemonic Opcode.div_int_2addr = "div-int/2addr"
mnemonic Opcode.rem_int_2addr = "rem-int/2addr"
mnemonic Opcode.and_int_2addr = "and-int/2addr"
mnemonic Opcode.or_int_2addr = "or-int/2addr"
mnemonic Opcode.xor_int_2addr = "xor-int/2addr"
mnemonic Opcode.shl_int_2addr = "shl-int/2addr"
mnemonic Opcode.shr_int_2addr = "shr-int/2addr"
mnemonic Opcode.ushr_int_2addr = "ushr-int/2addr"
mnemonic Opcode.add_long_2addr = "add-long/2addr"
mnemonic Opcode.sub_long_2addr = "sub-long/2addr"
mnemonic Opcode.mul_long_2addr = "mul-long/2addr"
mnemonic Opcode.div_long_2addr = "div-long/2addr"
mnemonic Opcode.rem_long_2addr = "rem-long/2addr"
mnemonic Opcode.and_long_2addr = "and-long/2addr"
mnemonic Opcode.or_long_2addr = "or-long/2addr"
mnemonic Opcode.xor_long_2addr = "xor-long/2addr"
mnemonic Opcode.shl_long_2addr = "shl-long/2addr"
mnemonic Opcode.shr_long_2addr = "shr-long/2addr"
mnemonic Opcode.ushr_long_2addr = "ushr-long/2addr"
mnemonic Opcode.add_float_2addr = "add-float/2addr"
mnemonic Opcode.sub_float_2addr = "sub-float/2addr"
mnemonic Opcode.mul_float_2addr = "mul-float/2addr"
mnemonic Opcode.div_float_2addr = "div-float/2addr"
mnemonic Opcode.rem_float_2addr = "rem-float/2addr"
mnemonic Opcode.add_double_2addr = "add-double/2addr"
mnemonic Opcode.sub_double_2addr = "sub-double/2addr"
mnemonic Opcode.mul_double_2addr = "mul-double/2addr"
mnemonic Opcode.div_double_2addr = "div-double/2addr"
mnemonic Opcode.rem_double_2addr = "rem-double/2addr"
mnemonic Opcode.add_int_lit16 = "add-int/lit16"
mnemonic Opcode.rsub_int = "rsub-int"
mnemonic Opcode.mul_int_lit16 = "mul-int/lit16"
mnemonic Opcode.div_int_lit16 = "div-int/lit16"
mnemonic Opcode.rem_int_lit16 = "rem-int/lit16"
mnemonic Opcode.and_int_lit16 = "and-int/lit16"
mnemonic Opcode.or_int_lit16 = "or-int/lit16"
mnemonic Opcode.xor_int_lit16 = "xor-int/lit16"
mnemonic Opcode.add_int_lit8 = "add-int/lit8"
mnemonic Opcode.rsub_int_lit8 = "rsub-int/lit8"
mnemonic Opcode.mul_int_lit8 = "mul-int/lit8"
mnemonic Opcode.div_int_lit8 = "div-int/lit8"
mnemonic Opcode.rem_int_lit8 = "rem-int/lit8"
mnemonic Opcode.and_int_lit8 = "and-int/lit8"
mnemonic Opcode.or_int_lit8 = "or-int/lit8"
mnemonic Opcode.xor_int_lit8 = "xor-int/lit8"
mnemonic Opcode.shl_int_lit8 = "shl-int/lit8"
mnemonic Opcode.shr_int_lit8 = "shr-int/lit8"
mnemonic Opcode.ushr_int_lit8 = "ushr-int/lit8"
mnemonic Opcode.invoke_polymorphic = "invoke-polymorphic"
mnemonic Opcode.invoke_polymorphic_range = "invoke-polymorphic/range"
mnemonic Opcode.invoke_custom = "invoke-custom"
mnemonic Opcode.invoke_custom_range = "invoke-custom/range"
mnemonic Opcode.const_method_handle = "const-method-handle"
mnemonic Opcode.const_method_type = "const-method-type"

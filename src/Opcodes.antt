-- ===== src/Opcodes.antt =====
-- src/opcodes.rs: the Dalvik opcodes, their encoding bytes and their mnemonics.
pub mod RoundTrip
pub mod Bytes
pub mod Mnemonic

-- `enum Opcode`, in the order of the discriminants.
pub data Opcode : Type 0 where
  nop move move_from16 move16 move_wide move_wide_from16 move_wide16 move_object : Opcode
  move_object_from16 move_object16 move_result move_result_wide move_result_object : Opcode
  move_exception return_void return return_wide return_object const4 const16 const : Opcode
  const_high16 const_wide16 const_wide32 const_wide const_wide_high16 const_string : Opcode
  const_string_jumbo const_class monitor_enter monitor_exit check_cast instance_of : Opcode
  array_length new_instance new_array filled_new_array filled_new_array_range : Opcode
  fill_array_data throw goto goto16 goto32 packed_switch sparse_switch cmpl_float : Opcode
  cmpg_float cmpl_double cmpg_double cmp_long if_eq if_ne if_lt if_ge if_gt if_le if_eqz : Opcode
  if_nez if_ltz if_gez if_gtz if_lez aget aget_wide aget_object aget_boolean aget_byte : Opcode
  aget_char aget_short aput aput_wide aput_object aput_boolean aput_byte aput_char : Opcode
  aput_short iget iget_wide iget_object iget_boolean iget_byte iget_char iget_short iput : Opcode
  iput_wide iput_object iput_boolean iput_byte iput_char iput_short sget sget_wide : Opcode
  sget_object sget_boolean sget_byte sget_char sget_short sput sput_wide sput_object : Opcode
  sput_boolean sput_byte sput_char sput_short invoke_virtual invoke_super invoke_direct : Opcode
  invoke_static invoke_interface invoke_virtual_range invoke_super_range : Opcode
  invoke_direct_range invoke_static_range invoke_interface_range neg_int not_int neg_long : Opcode
  not_long neg_float neg_double int_to_long int_to_float int_to_double long_to_int : Opcode
  long_to_float long_to_double float_to_int float_to_long float_to_double double_to_int : Opcode
  double_to_long double_to_float int_to_byte int_to_char int_to_short add_int sub_int : Opcode
  mul_int div_int rem_int and_int or_int xor_int shl_int shr_int ushr_int add_long sub_long : Opcode
  mul_long div_long rem_long and_long or_long xor_long shl_long shr_long ushr_long : Opcode
  add_float sub_float mul_float div_float rem_float add_double sub_double mul_double : Opcode
  div_double rem_double add_int_2addr sub_int_2addr mul_int_2addr div_int_2addr : Opcode
  rem_int_2addr and_int_2addr or_int_2addr xor_int_2addr shl_int_2addr shr_int_2addr : Opcode
  ushr_int_2addr add_long_2addr sub_long_2addr mul_long_2addr div_long_2addr rem_long_2addr : Opcode
  and_long_2addr or_long_2addr xor_long_2addr shl_long_2addr shr_long_2addr ushr_long_2addr : Opcode
  add_float_2addr sub_float_2addr mul_float_2addr div_float_2addr rem_float_2addr : Opcode
  add_double_2addr sub_double_2addr mul_double_2addr div_double_2addr rem_double_2addr : Opcode
  add_int_lit16 rsub_int mul_int_lit16 div_int_lit16 rem_int_lit16 and_int_lit16 : Opcode
  or_int_lit16 xor_int_lit16 add_int_lit8 rsub_int_lit8 mul_int_lit8 div_int_lit8 : Opcode
  rem_int_lit8 and_int_lit8 or_int_lit8 xor_int_lit8 shl_int_lit8 shr_int_lit8 : Opcode
  ushr_int_lit8 invoke_polymorphic invoke_polymorphic_range invoke_custom : Opcode
  invoke_custom_range const_method_handle const_method_type : Opcode

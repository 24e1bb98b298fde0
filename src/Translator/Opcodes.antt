-- ===== src/Translator/Opcodes.antt =====
-- The operation codes of the bytecode, enum OperationType of src/translator/translator.h.
use chloride.Base.{ℕ}

abbrev pub op_load_string : ℕ
op_load_string = 1

abbrev pub op_declare : ℕ
op_declare = 2

abbrev pub op_load_null : ℕ
op_load_null = 3

abbrev pub op_load_function : ℕ
op_load_function = 4

abbrev pub op_set_function_parameter : ℕ
op_set_function_parameter = 5

abbrev pub op_set_function_positional_parameter : ℕ
op_set_function_positional_parameter = 6

abbrev pub op_set_function_key_word_parameter : ℕ
op_set_function_key_word_parameter = 7

abbrev pub op_set_function_default_parameter : ℕ
op_set_function_default_parameter = 8

abbrev pub op_identifier : ℕ
op_identifier = 9

abbrev pub op_delete_identifier : ℕ
op_delete_identifier = 10

abbrev pub op_bool : ℕ
op_bool = 11

abbrev pub op_jump_if_false : ℕ
op_jump_if_false = 12

abbrev pub op_jump : ℕ
op_jump = 13

abbrev pub op_new_scope : ℕ
op_new_scope = 14

abbrev pub op_empty_scope : ℕ
op_empty_scope = 15

abbrev pub op_pop_scope : ℕ
op_pop_scope = 16

abbrev pub op_init_call : ℕ
op_init_call = 17

abbrev pub op_insert_arg : ℕ
op_insert_arg = 18

abbrev pub op_set_key_word_arg : ℕ
op_set_key_word_arg = 19

abbrev pub op_call : ℕ
op_call = 20

abbrev pub op_source_location : ℕ
op_source_location = 21

abbrev pub op_load_bool : ℕ
op_load_bool = 22

abbrev pub op_load_number : ℕ
op_load_number = 23

abbrev pub op_assign : ℕ
op_assign = 24

abbrev pub op_copy_to_register : ℕ
op_copy_to_register = 25

abbrev pub op_addition : ℕ
op_addition = 26

abbrev pub op_subtraction : ℕ
op_subtraction = 27

abbrev pub op_load_getattribute_method : ℕ
op_load_getattribute_method = 28

abbrev pub op_multiplication : ℕ
op_multiplication = 29

abbrev pub op_exponentiation : ℕ
op_exponentiation = 30

abbrev pub op_division : ℕ
op_division = 31

abbrev pub op_floor_division : ℕ
op_floor_division = 32

abbrev pub op_modulo : ℕ
op_modulo = 33

abbrev pub op_equal : ℕ
op_equal = 34

abbrev pub op_not_equal : ℕ
op_not_equal = 35

abbrev pub op_less_than : ℕ
op_less_than = 36

abbrev pub op_less_than_equal : ℕ
op_less_than_equal = 37

abbrev pub op_greater_than : ℕ
op_greater_than = 38

abbrev pub op_greater_than_equal : ℕ
op_greater_than_equal = 39

abbrev pub op_not : ℕ
op_not = 40

abbrev pub op_in : ℕ
op_in = 41

abbrev pub op_not_in : ℕ
op_not_in = 42

abbrev pub op_negation : ℕ
op_negation = 43

abbrev pub op_load_setattr_method : ℕ
op_load_setattr_method = 44

abbrev pub op_load_delattr_method : ℕ
op_load_delattr_method = 45

abbrev pub op_create_dictionary : ℕ
op_create_dictionary = 46

abbrev pub op_load_getitem_method : ℕ
op_load_getitem_method = 47

abbrev pub op_load_setitem_method : ℕ
op_load_setitem_method = 48

abbrev pub op_load_delitem_method : ℕ
op_load_delitem_method = 49

abbrev pub op_create_class : ℕ
op_create_class = 50

abbrev pub op_load_base_class : ℕ
op_load_base_class = 51

abbrev pub op_import : ℕ
op_import = 52

abbrev pub op_expose_all : ℕ
op_expose_all = 53

abbrev pub op_expose : ℕ
op_expose = 54

abbrev pub op_load_create_array : ℕ
op_load_create_array = 55

abbrev pub op_load_iter_method : ℕ
op_load_iter_method = 56

abbrev pub op_load_next_method : ℕ
op_load_next_method = 57

abbrev pub op_load_range_class : ℕ
op_load_range_class = 58

abbrev pub op_for_loop_jump : ℕ
op_for_loop_jump = 59

abbrev pub op_load_template_method : ℕ
op_load_template_method = 60

abbrev pub op_load_create_tuple : ℕ
op_load_create_tuple = 61

abbrev pub op_load_template : ℕ
op_load_template = 62

abbrev pub op_make_range_inclusive : ℕ
op_make_range_inclusive = 63

abbrev pub op_throw : ℕ
op_throw = 64

abbrev pub op_exception_catcher_push : ℕ
op_exception_catcher_push = 65

abbrev pub op_exception_catcher_pop : ℕ
op_exception_catcher_pop = 66

abbrev pub op_load_is_instance_function : ℕ
op_load_is_instance_function = 67

abbrev pub op_load_exception_class : ℕ
op_load_exception_class = 68

abbrev pub op_load_stopiteration_class : ℕ
op_load_stopiteration_class = 69

abbrev pub op_load_slice_class : ℕ
op_load_slice_class = 70

abbrev pub op_quiet_throw : ℕ
op_quiet_throw = 71

abbrev pub op_unpack_key_word_args : ℕ
op_unpack_key_word_args = 72

abbrev pub op_unpack_args : ℕ
op_unpack_args = 73

abbrev pub op_destructure_error : ℕ
op_destructure_error = 74

abbrev pub op_unpack_iterator : ℕ
op_unpack_iterator = 75

abbrev pub op_load_dictionary_class : ℕ
op_load_dictionary_class = 76

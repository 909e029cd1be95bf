-- ===== src/Tests/Exchange.antt =====
-- Messages that are written and read.
use python_dbus.Message.Append.{Interpreter, number, text}
use python_dbus.Message.Guess.Lookup.{raised, get_object_path}
use python_dbus.Message.Objects.{objects_of, FitAll, Fits}
use python_dbus.Containers.{is_key_type}
use python_dbus.Message.Read.Faithful.Keys.{HaveKeys, HasKeys}
use python_dbus.Message.Read.Faithful.{get_args_list-objects_of}
use python_dbus.Message.Read.{get_args_list}
use python_dbus.Message.Resent.{get_args_list-append}
use python_dbus.Message.Signature.Iterates.{collect-each, each}
use python_dbus.Message.Signature.{collect, signature_iter}
use python_dbus.Message.Types
use python_dbus.Message.Types.{Ty, Tys, print, print_all}
use python_dbus.Message.Values.{
  Value, basic, array, dict, struct, variant, Values, nil, cons, end, pair, type_of, size, size_all,
  calls_all, code, basic_fits,
}
use python_dbus.Message.Write.Again.Arguments.{message_append-calls}
use python_dbus.Message.Write.Balanced.{append_pyobject-IsBalanced, message_append-Kept, Kept}
use python_dbus.Message.Write.Balanced.Walk.{Adds}
use python_dbus.Message.Write.{
  Iteration, Memory, message_append, append_pyobject, subscripts_of, Subscripts,
}
use python_dbus.Prelude.{
  ◌<◌, ◌≤◌, Bool, true, false, not, ◌==◌, Option, some, none, [], ◌∷◌, ◌++◌, ◌≡◌, inl, refl, arith,
}
use python_dbus.Python.Integer.{pos, negsuc}
use python_dbus.Python.Object
use python_dbus.Python.Object.{Object, Objects, int_object, IntType}
use python_dbus.Python.{Exception, Result, ok, err, other_exception, type_error}
use python_dbus.Tests.Append.{integer_of, real_of}
use python_dbus.Tests.Received.{held, laws, machine, equal, stores, at_start, stands, signed}
use python_dbus.Tests.Signatures.{texts}
use python_dbus.Tests.Types.{wide}

abbrev truth_of : Object → Result Bool
truth_of (int_object type (pos n) level) = ok (not (n == 0))
truth_of _ = ok true

abbrev reader : Interpreter
reader = record {
  platform = wide;
  attribute = λ obj. raised other_exception;
  truth = truth_of;
  integer = integer_of;
  real = real_of;
  validate_utf8 = λ s. true;
  integer_int = λ type v level. refl;
  real_float = λ type x level. refl;
}

abbrev items_of : Object → Result (Objects × Option Exception)
items_of (Object.array xs sig level) = ok (xs, none)
items_of (Object.struct xs level) = ok (xs, none)
items_of (Object.list xs) = ok (xs, none)
items_of (Object.tuple xs) = ok (xs, none)
items_of _ = err type_error

abbrev entries_in : Object → Result (Subscripts × Option Exception)
entries_in (Object.dictionary es sig level) = ok (subscripts_of es, none)
entries_in (Object.dict es) = ok (subscripts_of es, none)
entries_in _ = err type_error

abbrev containers : Iteration
containers = record {
  items = items_of;
  subscripts = entries_in;
  items_array = λ xs sig level. refl;
  items_struct = λ xs level. refl;
  subscripts_dictionary = λ es sig level. refl;
}

abbrev endless : Memory
endless = record { for_call = λ w c. true; for_signature = λ w. true }

-- (-5 in two variants, {'a': true}), and an empty array of strings.
abbrev minus_five : Value
minus_five = variant (variant (basic Types.int16 (number (negsuc 4))))

abbrev flags : Value
flags =
    dict Types.string Types.boolean
      (pair (basic Types.string (text (b'a' ∷ []))) (basic Types.boolean (number (pos 1))) end)

abbrev arguments : Values
arguments = cons (struct minus_five (cons flags nil)) (cons (array Types.string nil) nil)

no_path : (obj : Object) → get_object_path (reader.attribute obj) ≡ ok none
unfolding get_object_path
no_path obj = refl

fine : FitAll reader.validate_utf8 (λ s. true) (λ s. true) arguments
unfolding Fits basic_fits is_key_type code type_of
fine =
    (((refl, ((refl, refl, refl, (refl, refl, refl, refl, tt)), tt)), ((refl, refl, tt, tt), tt)))

distinct : HaveKeys equal arguments
unfolding HasKeys
distinct = ((tt, (((refl, tt), (tt, tt, tt)), tt)), (tt, tt))

small : size_all arguments < 20
unfolding size
small = omega arith

get_args_list-append_example :
    (args : Objects) × (get_args_list held machine
        (λ s. true)
        (λ s. true)
        false
        20
        (some (some (at_start arguments)))
      ≡ ok args)
    × (message_append texts reader containers endless 20 (λ s. true) none args (some [])
        ≡ (some ([] ++ calls_all arguments), ok tt))
get_args_list-append_example =
    get_args_list-append held machine texts reader containers endless (λ s. true) (λ s. true) equal
      laws 20 arguments (at_start arguments) [] (λ c d. refl) (λ c. refl) no_path (λ m level. refl)
      (λ s h. refl) signed stores small fine distinct refl (stands arguments)

message_append-calls_example :
    message_append texts reader containers endless 20
      (λ s. true)
      none
      (objects_of arguments)
      (some [])
    ≡ (some ([] ++ calls_all arguments), ok tt)
message_append-calls_example =
    message_append-calls texts reader containers endless (λ w c. refl) (λ w. refl) (λ s. true)
      (λ s. true) no_path (λ m level. refl) 20 arguments none [] (omega (arith, small)) fine refl
      (inl refl)

get_args_list-objects_of_example :
    get_args_list held machine (λ s. true) (λ s. true) false 20 (some (some (at_start arguments)))
    ≡ ok (objects_of arguments)
get_args_list-objects_of_example =
    get_args_list-objects_of held machine (λ s. true) (λ s. true) laws (λ s. true) (λ s h. refl)
      signed equal stores 20 arguments (at_start arguments) small fine distinct (stands arguments)

fine_five : Fits (λ s. true) (λ s. true) (λ s. true) minus_five
unfolding Fits basic_fits
fine_five = refl

distinct_five : HasKeys equal minus_five
unfolding HasKeys
distinct_five = tt

small_five : size minus_five ≤ 3
unfolding size
small_five = omega arith

-- A struct of two numbers, one of which is no byte.
abbrev wrong : Object
wrong =
    Object.struct
      (Object.cons (int_object IntType.byte (pos 300) (pos 0))
        (Object.cons (int_object IntType.int16 (pos 1) (pos 0)) Object.nil))
      (pos 0)

append_pyobject-IsBalanced_example : Adds [] (
    append_pyobject texts reader containers endless 5
      (texts.init (b'(' ∷ b'y' ∷ b'n' ∷ b')' ∷ []))
      wrong
      [])
append_pyobject-IsBalanced_example =
    append_pyobject-IsBalanced texts reader containers endless (λ w c. refl) 5
      (texts.init (b'(' ∷ b'y' ∷ b'n' ∷ b')' ∷ [])) wrong []

truth_told : (obj : Object) → (b : Bool) × (reader.truth obj ≡ ok b)
truth_told (int_object type (pos n) level) = (not (n == 0), refl)
truth_told _ = (true, refl)

message_append-Kept_example :
    Kept texts reader containers endless
      (λ w c. refl)
      []
      (message_append texts reader containers endless 5
        (λ s. true)
        none
        (Object.cons wrong Object.nil)
        (some []))
message_append-Kept_example =
    message_append-Kept texts reader containers endless (λ w c. refl) truth_told 5 (λ s. true) none
      (Object.cons wrong Object.nil) []

abbrev two_types : Tys
two_types = Tys.cons (Types.array Types.string) (Tys.cons Types.variant Tys.nil)

collect-each_example :
    collect texts (λ s. true) 3 (signature_iter texts (print_all two_types))
    ≡ some (ok (each two_types))
collect-each_example = collect-each texts (λ s. true) 3 two_types (refl, (refl, tt)) (omega arith)

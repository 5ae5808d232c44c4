-- ===== src/Constant.antt =====
-- pkg/runtime/constant: the data types of a variable, the order of the bytes of a word and the
-- access modes, with the names that stand for them in JSON. A value that is none of Go's
-- constants cannot be decoded and is not modelled.

use harns_gateway.Prelude.{ℕ, Option, none, some, if◌then◌else◌}
use Prim.Native.String.{String}
use text.Mathlib.Text.{◌==◌ as str_eq}

pub data DataType : Type 0 where
  bool int16 float32 float64 int32 int64 uint16 number string : DataType

-- `DataTypeToString`
unfoldable pub data_type_to_string : DataType → String
data_type_to_string bool = "bool"
data_type_to_string int16 = "int16"
data_type_to_string float32 = "float32"
data_type_to_string float64 = "float64"
data_type_to_string int32 = "int32"
data_type_to_string int64 = "int64"
data_type_to_string uint16 = "uint16"
data_type_to_string number = "number"
data_type_to_string string = "string"

-- `StringToDataType`, a look-up that may miss.
unfoldable pub string_to_data_type : String → Option DataType
string_to_data_type s =
    if str_eq s "bool"
    then some bool
    else if str_eq s "int16"
    then some int16
    else if str_eq s "float32"
    then some float32
    else if str_eq s "float64"
    then some float64
    else if str_eq s "int32"
    then some int32
    else if str_eq s "int64"
    then some int64
    else if str_eq s "uint16"
    then some uint16
    else if str_eq s "number"
    then some number
    else if str_eq s "string"
    then some string
    else none

-- `DataTypeWord`: the registers of 16 bits that a value takes.
unfoldable pub data_type_word : DataType → ℕ
data_type_word bool = 1
data_type_word int16 = 1
data_type_word float32 = 2
data_type_word float64 = 4
data_type_word int32 = 2
data_type_word int64 = 4
data_type_word uint16 = 1
data_type_word number = 1
data_type_word string = 1

pub data MemoryLayout : Type 0 where
  dcba cdab badc abcd : MemoryLayout

-- `MemoryLayoutToString`
unfoldable pub memory_layout_to_string : MemoryLayout → String
memory_layout_to_string dcba = "DCBA"
memory_layout_to_string cdab = "CDAB"
memory_layout_to_string badc = "BADC"
memory_layout_to_string abcd = "ABCD"

-- `StringToMemoryLayout`
unfoldable pub string_to_memory_layout : String → Option MemoryLayout
string_to_memory_layout s =
    if str_eq s "DCBA"
    then some dcba
    else if str_eq s "CDAB"
    then some cdab
    else if str_eq s "BADC"
    then some badc
    else if str_eq s "ABCD"
    then some abcd
    else none

pub data AccessMode : Type 0 where
  read_only read_write : AccessMode

-- `ReadWritePropertyToString`
unfoldable pub access_mode_to_string : AccessMode → String
access_mode_to_string read_only = "r"
access_mode_to_string read_write = "rw"

-- `StringToReadWriteProperty`
unfoldable pub string_to_access_mode : String → Option AccessMode
string_to_access_mode s =
    if str_eq s "r" then some read_only else if str_eq s "rw" then some read_write else none

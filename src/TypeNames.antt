-- ===== src/TypeNames.antt =====
-- src/type.c and include/lor/type.h: the kinds of types and their names.
use Prim.Native.String.{String}

pub data TypeKind : Type 0 where
  other bool char signed_char unsigned_char short unsigned_short int unsigned_int long : TypeKind
  unsigned_long long_long unsigned_long_long float double long_double cstring pointer : TypeKind
  string_view arena_config arena arena_mark scratch mmap leak_stats random : TypeKind

abbrev pub type_kind_name : TypeKind → String
type_kind_name bool = "bool"
type_kind_name char = "char"
type_kind_name signed_char = "signed char"
type_kind_name unsigned_char = "unsigned char"
type_kind_name short = "short"
type_kind_name unsigned_short = "unsigned short"
type_kind_name int = "int"
type_kind_name unsigned_int = "unsigned int"
type_kind_name long = "long"
type_kind_name unsigned_long = "unsigned long"
type_kind_name long_long = "long long"
type_kind_name unsigned_long_long = "unsigned long long"
type_kind_name float = "float"
type_kind_name double = "double"
type_kind_name long_double = "long double"
type_kind_name cstring = "C string"
type_kind_name pointer = "pointer"
type_kind_name string_view = "LorStringView"
type_kind_name arena_config = "LorArenaConfig"
type_kind_name arena = "LorArena"
type_kind_name arena_mark = "LorArenaMark"
type_kind_name scratch = "LorScratch"
type_kind_name mmap = "LorMmap"
type_kind_name leak_stats = "LorLeakStats"
type_kind_name random = "LorRandom"
type_kind_name other = "other"

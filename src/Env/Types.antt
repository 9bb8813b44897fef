-- ===== src/Env/Types.antt =====
-- The tables of vendors, modules, dependencies and operating environments (AMVP_OPERATING_ENV of
-- include/amvp/amvp_lcl.h). A table is the list of the entries in use, a pointer into a table is an
-- index, a string field is an own copy.
use libamvp.Common.{ℕ, Option, none, List, []}
use libamvp.SafeC.Errno.{CStr}

abbrev pub Field : Type 0
Field = Option CStr

pub data Status : Type 0 where
  complete partial incomplete : Status

pub record Address : Type 0 where
  pub street_1 : Field
  pub street_2 : Field
  pub street_3 : Field
  pub locality : Field
  pub region : Field
  pub country : Field
  pub postal_code : Field
  pub url : Field

pub record Phone : Type 0 where
  pub number : Field
  pub type : Field

pub record Person : Type 0 where
  pub url : Field
  pub full_name : Field
  pub phone_numbers : List Phone
  pub emails : List CStr

pub record Vendor : Type 0 where
  pub id : ℕ
  pub url : Field
  pub name : Field
  pub website : Field
  pub phone_numbers : List Phone
  pub emails : List CStr
  pub persons : List Person
  pub address : Address

pub record Module : Type 0 where
  pub id : ℕ
  pub name : Field
  pub type : Field
  pub version : Field
  pub description : Field
  pub url : Field
  pub vendor : Option ℕ

pub record Dependency : Type 0 where
  pub id : ℕ
  pub url : Field
  pub name : Field
  pub type : Field
  pub description : Field
  pub series : Field
  pub family : Field
  pub version : Field
  pub manufacturer : Field

pub record Oe : Type 0 where
  pub id : ℕ
  pub name : Field
  pub url : Field
  pub deps : List ℕ
  pub status : Option Status

pub record Env : Type 0 where
  pub vendors : List Vendor
  pub modules : List Module
  pub dependencies : List Dependency
  pub oes : List Oe

abbrev pub oe_str_max : ℕ
oe_str_max = 256

abbrev pub vendors_max : ℕ
vendors_max = 8

abbrev pub modules_max : ℕ
modules_max = 32

abbrev pub dependencies_max : ℕ
dependencies_max = 64

abbrev pub oes_max : ℕ
oes_max = 8

-- An entry that was cleared with the context, with its id.
abbrev pub new_vendor : ℕ → Vendor
new_vendor id = record {
  id = id;
  url = none;
  name = none;
  website = none;
  phone_numbers = [];
  emails = [];
  persons = [];
  address = record {
    street_1 = none;
    street_2 = none;
    street_3 = none;
    locality = none;
    region = none;
    country = none;
    postal_code = none;
    url = none;
  };
}

abbrev pub new_module : ℕ → Module
new_module id = record {
  id = id;
  name = none;
  type = none;
  version = none;
  description = none;
  url = none;
  vendor = none;
}

abbrev pub new_dependency : ℕ → Dependency
new_dependency id = record {
  id = id;
  url = none;
  name = none;
  type = none;
  description = none;
  series = none;
  family = none;
  version = none;
  manufacturer = none;
}

abbrev pub new_oe : ℕ → Oe
new_oe id = record { id = id; name = none; url = none; deps = []; status = none }

-- What the allocation of the context leaves.
abbrev pub empty_env : Env
empty_env = record { vendors = []; modules = []; dependencies = []; oes = [] }

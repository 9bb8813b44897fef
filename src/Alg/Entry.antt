-- ===== src/Alg/Entry.antt =====
-- The type of the entries of the algorithm table (include/amvp/amvp_lcl.h), the handlers that it
-- names and the strings of the revisions.
use libamvp.Common.{Option, none, some, codes}
use libamvp.SafeC.Errno.{CStr}
use libamvp.Alg.Cipher.{Cipher}
use libamvp.Alg.Sub.{Sub}

pub data Handler : Type 0 where
  aes_kat_handler des_kat_handler hash_kat_handler drbg_kat_handler hmac_kat_handler
        cmac_kat_handler kmac_kat_handler dsa_kat_handler rsa_keygen_kat_handler
        rsa_siggen_kat_handler rsa_sigver_kat_handler rsa_decprim_kat_handler
        rsa_sigprim_kat_handler ecdsa_keygen_kat_handler ecdsa_keyver_kat_handler
        ecdsa_siggen_kat_handler ecdsa_sigver_kat_handler kdf135_snmp_kat_handler
        kdf135_ssh_kat_handler kdf135_srtp_kat_handler kdf135_ikev2_kat_handler
        kdf135_ikev1_kat_handler kdf135_x942_kat_handler kdf135_x963_kat_handler kdf108_kat_handler
        pbkdf_kat_handler kdf_tls12_kat_handler kdf_tls13_kat_handler kas_ecc_kat_handler
        kas_ecc_ssc_kat_handler kas_ffc_kat_handler kas_ffc_ssc_kat_handler kas_ifc_ssc_kat_handler
        kda_onestep_kat_handler kda_twostep_kat_handler kda_hkdf_kat_handler kts_ifc_kat_handler
        safe_primes_kat_handler :
      Handler

pub record AlgHandler : Type 0 where
  pub cipher : Cipher
  pub handler : Handler
  pub name : CStr
  pub mode : Option CStr
  pub revision : CStr
  pub alg : Sub

abbrev pub plain : Cipher → Handler → CStr → CStr → Sub → AlgHandler
plain cipher handler name revision alg = record {
  cipher = cipher;
  handler = handler;
  name = name;
  mode = none;
  revision = revision;
  alg = alg;
}

abbrev pub moded : Cipher → Handler → CStr → CStr → CStr → Sub → AlgHandler
moded cipher handler name mode revision alg = record {
  cipher = cipher;
  handler = handler;
  name = name;
  mode = some mode;
  revision = revision;
  alg = alg;
}

abbrev pub rev_default : CStr
rev_default = codes "1.0"

abbrev pub rev_2_0 : CStr
rev_2_0 = codes "2.0"

abbrev pub rev_fips186_4 : CStr
rev_fips186_4 = codes "FIPS186-4"

abbrev pub rev_sp800_56ar3 : CStr
rev_sp800_56ar3 = codes "Sp800-56Ar3"

abbrev pub rev_sp800_56br2 : CStr
rev_sp800_56br2 = codes "Sp800-56Br2"

abbrev pub rev_sp800_56cr1 : CStr
rev_sp800_56cr1 = codes "Sp800-56Cr1"

abbrev pub rev_sp800_56cr2 : CStr
rev_sp800_56cr2 = codes "Sp800-56Cr2"

abbrev pub rev_rfc8446 : CStr
rev_rfc8446 = codes "RFC8446"

abbrev pub rev_rfc7627 : CStr
rev_rfc7627 = codes "RFC7627"

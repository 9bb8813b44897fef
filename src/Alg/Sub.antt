-- ===== src/Alg/Sub.antt =====
-- The sub-type enumerations of include/amvp/amvp.h, and the union of them that
-- an entry of the algorithm table keeps.

pub data SubAes : Type 0 where
  sub_aes_gcm sub_aes_gcm_siv sub_aes_ccm sub_aes_ecb sub_aes_cbc sub_aes_cbc_cs1 sub_aes_cbc_cs2
        sub_aes_cbc_cs3 sub_aes_cfb1 sub_aes_cfb8 sub_aes_cfb128 sub_aes_ofb sub_aes_ctr sub_aes_xts
        sub_aes_xpn sub_aes_kw sub_aes_kwp sub_aes_gmac :
      SubAes

pub data SubTdes : Type 0 where
  sub_tdes_ecb sub_tdes_cbc sub_tdes_cbci sub_tdes_ofb sub_tdes_ofbi sub_tdes_cfb1 sub_tdes_cfb8
        sub_tdes_cfb64 sub_tdes_cfbp1 sub_tdes_cfbp8 sub_tdes_cfbp64 sub_tdes_ctr sub_tdes_kw :
      SubTdes

pub data SubCmac : Type 0 where
  sub_cmac_aes sub_cmac_tdes : SubCmac

pub data SubKmac : Type 0 where
  sub_kmac_128 sub_kmac_256 : SubKmac

pub data SubHmac : Type 0 where
  sub_hmac_sha1 sub_hmac_sha2_224 sub_hmac_sha2_256 sub_hmac_sha2_384 sub_hmac_sha2_512
        sub_hmac_sha2_512_224 sub_hmac_sha2_512_256 sub_hmac_sha3_224 sub_hmac_sha3_256
        sub_hmac_sha3_384 sub_hmac_sha3_512 :
      SubHmac

pub data SubHash : Type 0 where
  sub_hash_sha1 sub_hash_sha2_224 sub_hash_sha2_256 sub_hash_sha2_384 sub_hash_sha2_512
        sub_hash_sha2_512_224 sub_hash_sha2_512_256 sub_hash_sha3_224 sub_hash_sha3_256
        sub_hash_sha3_384 sub_hash_sha3_512 sub_hash_shake_128 sub_hash_shake_256 :
      SubHash

pub data SubDsa : Type 0 where
  sub_dsa_keygen sub_dsa_pqggen sub_dsa_pqgver sub_dsa_siggen sub_dsa_sigver : SubDsa

pub data SubRsa : Type 0 where
  sub_rsa_keygen sub_rsa_siggen sub_rsa_sigver sub_rsa_decprim sub_rsa_sigprim : SubRsa

pub data SubEcdsa : Type 0 where
  sub_ecdsa_keygen sub_ecdsa_keyver sub_ecdsa_siggen sub_ecdsa_sigver : SubEcdsa

pub data SubDrbg : Type 0 where
  sub_drbg_hash sub_drbg_hmac sub_drbg_ctr : SubDrbg

pub data SubKas : Type 0 where
  sub_kas_ecc_cdh sub_kas_ecc_comp sub_kas_ecc_nocomp sub_kas_ecc_ssc sub_kas_ffc_comp
        sub_kas_ffc_ssc sub_kas_ffc_nocomp sub_kas_ifc_ssc sub_kts_ifc sub_kda_onestep
        sub_kda_twostep sub_kda_hkdf sub_safe_primes_keygen sub_safe_primes_keyver :
      SubKas

pub data SubKdf : Type 0 where
  sub_kdf_snmp sub_kdf_ssh sub_kdf_srtp sub_kdf_ikev2 sub_kdf_ikev1 sub_kdf_x942 sub_kdf_x963
        sub_kdf_108 sub_kdf_pbkdf sub_kdf_tls12 sub_kdf_tls13 :
      SubKdf

pub data Sub : Type 0 where
  aes : SubAes → Sub
  tdes : SubTdes → Sub
  cmac : SubCmac → Sub
  kmac : SubKmac → Sub
  hmac : SubHmac → Sub
  hash : SubHash → Sub
  dsa : SubDsa → Sub
  rsa : SubRsa → Sub
  ecdsa : SubEcdsa → Sub
  drbg : SubDrbg → Sub
  kas : SubKas → Sub
  kdf : SubKdf → Sub

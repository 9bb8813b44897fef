-- ===== src/Alg/Naming.antt =====
-- Which cipher a sub-type of include/amvp/amvp.h is named after.
use libamvp.Alg.Cipher.{
  Cipher, aes_gcm, aes_gcm_siv, aes_ccm, aes_ecb, aes_cbc, aes_cbc_cs1, aes_cbc_cs2, aes_cbc_cs3,
  aes_cfb1, aes_cfb8, aes_cfb128, aes_ofb, aes_ctr, aes_xts, aes_kw, aes_kwp, aes_gmac, aes_xpn,
  tdes_ecb, tdes_cbc, tdes_cbci, tdes_ofb, tdes_ofbi, tdes_cfb1, tdes_cfb8, tdes_cfb64, tdes_cfbp1,
  tdes_cfbp8, tdes_cfbp64, tdes_ctr, tdes_kw, hash_sha1, hash_sha224, hash_sha256, hash_sha384,
  hash_sha512, hash_sha512_224, hash_sha512_256, hash_sha3_224, hash_sha3_256, hash_sha3_384,
  hash_sha3_512, hash_shake_128, hash_shake_256, hashdrbg, hmacdrbg, ctrdrbg, hmac_sha1,
  hmac_sha2_224, hmac_sha2_256, hmac_sha2_384, hmac_sha2_512, hmac_sha2_512_224, hmac_sha2_512_256,
  hmac_sha3_224, hmac_sha3_256, hmac_sha3_384, hmac_sha3_512, cmac_aes, cmac_tdes, kmac_128,
  kmac_256, dsa_keygen, dsa_pqggen, dsa_pqgver, dsa_siggen, dsa_sigver, rsa_keygen, rsa_siggen,
  rsa_sigver, rsa_decprim, rsa_sigprim, ecdsa_keygen, ecdsa_keyver, ecdsa_siggen, ecdsa_sigver,
  kdf135_snmp, kdf135_ssh, kdf135_srtp, kdf135_ikev2, kdf135_ikev1, kdf135_x942, kdf135_x963,
  kdf108, pbkdf, kdf_tls12, kdf_tls13, kas_ecc_cdh, kas_ecc_comp, kas_ecc_nocomp, kas_ecc_ssc,
  kas_ffc_comp, kas_ffc_nocomp, kas_ffc_ssc, kas_ifc_ssc, kda_onestep, kda_twostep, kda_hkdf,
  kts_ifc, safe_primes_keygen, safe_primes_keyver,
}
use libamvp.Alg.Sub.{
  Sub, aes, tdes, cmac, kmac, hmac, hash, dsa, rsa, ecdsa, drbg, kas, kdf, sub_aes_gcm,
  sub_aes_gcm_siv, sub_aes_ccm, sub_aes_ecb, sub_aes_cbc, sub_aes_cbc_cs1, sub_aes_cbc_cs2,
  sub_aes_cbc_cs3, sub_aes_cfb1, sub_aes_cfb8, sub_aes_cfb128, sub_aes_ofb, sub_aes_ctr,
  sub_aes_xts, sub_aes_xpn, sub_aes_kw, sub_aes_kwp, sub_aes_gmac, sub_tdes_ecb, sub_tdes_cbc,
  sub_tdes_cbci, sub_tdes_ofb, sub_tdes_ofbi, sub_tdes_cfb1, sub_tdes_cfb8, sub_tdes_cfb64,
  sub_tdes_cfbp1, sub_tdes_cfbp8, sub_tdes_cfbp64, sub_tdes_ctr, sub_tdes_kw, sub_cmac_aes,
  sub_cmac_tdes, sub_kmac_128, sub_kmac_256, sub_hmac_sha1, sub_hmac_sha2_224, sub_hmac_sha2_256,
  sub_hmac_sha2_384, sub_hmac_sha2_512, sub_hmac_sha2_512_224, sub_hmac_sha2_512_256,
  sub_hmac_sha3_224, sub_hmac_sha3_256, sub_hmac_sha3_384, sub_hmac_sha3_512, sub_hash_sha1,
  sub_hash_sha2_224, sub_hash_sha2_256, sub_hash_sha2_384, sub_hash_sha2_512, sub_hash_sha2_512_224,
  sub_hash_sha2_512_256, sub_hash_sha3_224, sub_hash_sha3_256, sub_hash_sha3_384, sub_hash_sha3_512,
  sub_hash_shake_128, sub_hash_shake_256, sub_dsa_keygen, sub_dsa_pqggen, sub_dsa_pqgver,
  sub_dsa_siggen, sub_dsa_sigver, sub_rsa_keygen, sub_rsa_siggen, sub_rsa_sigver, sub_rsa_decprim,
  sub_rsa_sigprim, sub_ecdsa_keygen, sub_ecdsa_keyver, sub_ecdsa_siggen, sub_ecdsa_sigver,
  sub_drbg_hash, sub_drbg_hmac, sub_drbg_ctr, sub_kas_ecc_cdh, sub_kas_ecc_comp, sub_kas_ecc_nocomp,
  sub_kas_ecc_ssc, sub_kas_ffc_comp, sub_kas_ffc_ssc, sub_kas_ffc_nocomp, sub_kas_ifc_ssc,
  sub_kts_ifc, sub_kda_onestep, sub_kda_twostep, sub_kda_hkdf, sub_safe_primes_keygen,
  sub_safe_primes_keyver, sub_kdf_snmp, sub_kdf_ssh, sub_kdf_srtp, sub_kdf_ikev2, sub_kdf_ikev1,
  sub_kdf_x942, sub_kdf_x963, sub_kdf_108, sub_kdf_pbkdf, sub_kdf_tls12, sub_kdf_tls13,
}

unfoldable pub cipher_of : Sub → Cipher
cipher_of (aes sub_aes_gcm) = aes_gcm
cipher_of (aes sub_aes_gcm_siv) = aes_gcm_siv
cipher_of (aes sub_aes_ccm) = aes_ccm
cipher_of (aes sub_aes_ecb) = aes_ecb
cipher_of (aes sub_aes_cbc) = aes_cbc
cipher_of (aes sub_aes_cbc_cs1) = aes_cbc_cs1
cipher_of (aes sub_aes_cbc_cs2) = aes_cbc_cs2
cipher_of (aes sub_aes_cbc_cs3) = aes_cbc_cs3
cipher_of (aes sub_aes_cfb1) = aes_cfb1
cipher_of (aes sub_aes_cfb8) = aes_cfb8
cipher_of (aes sub_aes_cfb128) = aes_cfb128
cipher_of (aes sub_aes_ofb) = aes_ofb
cipher_of (aes sub_aes_ctr) = aes_ctr
cipher_of (aes sub_aes_xts) = aes_xts
cipher_of (aes sub_aes_xpn) = aes_xpn
cipher_of (aes sub_aes_kw) = aes_kw
cipher_of (aes sub_aes_kwp) = aes_kwp
cipher_of (aes sub_aes_gmac) = aes_gmac
cipher_of (tdes sub_tdes_ecb) = tdes_ecb
cipher_of (tdes sub_tdes_cbc) = tdes_cbc
cipher_of (tdes sub_tdes_cbci) = tdes_cbci
cipher_of (tdes sub_tdes_ofb) = tdes_ofb
cipher_of (tdes sub_tdes_ofbi) = tdes_ofbi
cipher_of (tdes sub_tdes_cfb1) = tdes_cfb1
cipher_of (tdes sub_tdes_cfb8) = tdes_cfb8
cipher_of (tdes sub_tdes_cfb64) = tdes_cfb64
cipher_of (tdes sub_tdes_cfbp1) = tdes_cfbp1
cipher_of (tdes sub_tdes_cfbp8) = tdes_cfbp8
cipher_of (tdes sub_tdes_cfbp64) = tdes_cfbp64
cipher_of (tdes sub_tdes_ctr) = tdes_ctr
cipher_of (tdes sub_tdes_kw) = tdes_kw
cipher_of (cmac sub_cmac_aes) = cmac_aes
cipher_of (cmac sub_cmac_tdes) = cmac_tdes
cipher_of (kmac sub_kmac_128) = kmac_128
cipher_of (kmac sub_kmac_256) = kmac_256
cipher_of (hmac sub_hmac_sha1) = hmac_sha1
cipher_of (hmac sub_hmac_sha2_224) = hmac_sha2_224
cipher_of (hmac sub_hmac_sha2_256) = hmac_sha2_256
cipher_of (hmac sub_hmac_sha2_384) = hmac_sha2_384
cipher_of (hmac sub_hmac_sha2_512) = hmac_sha2_512
cipher_of (hmac sub_hmac_sha2_512_224) = hmac_sha2_512_224
cipher_of (hmac sub_hmac_sha2_512_256) = hmac_sha2_512_256
cipher_of (hmac sub_hmac_sha3_224) = hmac_sha3_224
cipher_of (hmac sub_hmac_sha3_256) = hmac_sha3_256
cipher_of (hmac sub_hmac_sha3_384) = hmac_sha3_384
cipher_of (hmac sub_hmac_sha3_512) = hmac_sha3_512
cipher_of (hash sub_hash_sha1) = hash_sha1
cipher_of (hash sub_hash_sha2_224) = hash_sha224
cipher_of (hash sub_hash_sha2_256) = hash_sha256
cipher_of (hash sub_hash_sha2_384) = hash_sha384
cipher_of (hash sub_hash_sha2_512) = hash_sha512
cipher_of (hash sub_hash_sha2_512_224) = hash_sha512_224
cipher_of (hash sub_hash_sha2_512_256) = hash_sha512_256
cipher_of (hash sub_hash_sha3_224) = hash_sha3_224
cipher_of (hash sub_hash_sha3_256) = hash_sha3_256
cipher_of (hash sub_hash_sha3_384) = hash_sha3_384
cipher_of (hash sub_hash_sha3_512) = hash_sha3_512
cipher_of (hash sub_hash_shake_128) = hash_shake_128
cipher_of (hash sub_hash_shake_256) = hash_shake_256
cipher_of (dsa sub_dsa_keygen) = dsa_keygen
cipher_of (dsa sub_dsa_pqggen) = dsa_pqggen
cipher_of (dsa sub_dsa_pqgver) = dsa_pqgver
cipher_of (dsa sub_dsa_siggen) = dsa_siggen
cipher_of (dsa sub_dsa_sigver) = dsa_sigver
cipher_of (rsa sub_rsa_keygen) = rsa_keygen
cipher_of (rsa sub_rsa_siggen) = rsa_siggen
cipher_of (rsa sub_rsa_sigver) = rsa_sigver
cipher_of (rsa sub_rsa_decprim) = rsa_decprim
cipher_of (rsa sub_rsa_sigprim) = rsa_sigprim
cipher_of (ecdsa sub_ecdsa_keygen) = ecdsa_keygen
cipher_of (ecdsa sub_ecdsa_keyver) = ecdsa_keyver
cipher_of (ecdsa sub_ecdsa_siggen) = ecdsa_siggen
cipher_of (ecdsa sub_ecdsa_sigver) = ecdsa_sigver
cipher_of (drbg sub_drbg_hash) = hashdrbg
cipher_of (drbg sub_drbg_hmac) = hmacdrbg
cipher_of (drbg sub_drbg_ctr) = ctrdrbg
cipher_of (kas sub_kas_ecc_cdh) = kas_ecc_cdh
cipher_of (kas sub_kas_ecc_comp) = kas_ecc_comp
cipher_of (kas sub_kas_ecc_nocomp) = kas_ecc_nocomp
cipher_of (kas sub_kas_ecc_ssc) = kas_ecc_ssc
cipher_of (kas sub_kas_ffc_comp) = kas_ffc_comp
cipher_of (kas sub_kas_ffc_ssc) = kas_ffc_ssc
cipher_of (kas sub_kas_ffc_nocomp) = kas_ffc_nocomp
cipher_of (kas sub_kas_ifc_ssc) = kas_ifc_ssc
cipher_of (kas sub_kts_ifc) = kts_ifc
cipher_of (kas sub_kda_onestep) = kda_onestep
cipher_of (kas sub_kda_twostep) = kda_twostep
cipher_of (kas sub_kda_hkdf) = kda_hkdf
cipher_of (kas sub_safe_primes_keygen) = safe_primes_keygen
cipher_of (kas sub_safe_primes_keyver) = safe_primes_keyver
cipher_of (kdf sub_kdf_snmp) = kdf135_snmp
cipher_of (kdf sub_kdf_ssh) = kdf135_ssh
cipher_of (kdf sub_kdf_srtp) = kdf135_srtp
cipher_of (kdf sub_kdf_ikev2) = kdf135_ikev2
cipher_of (kdf sub_kdf_ikev1) = kdf135_ikev1
cipher_of (kdf sub_kdf_x942) = kdf135_x942
cipher_of (kdf sub_kdf_x963) = kdf135_x963
cipher_of (kdf sub_kdf_108) = kdf108
cipher_of (kdf sub_kdf_pbkdf) = pbkdf
cipher_of (kdf sub_kdf_tls12) = kdf_tls12
cipher_of (kdf sub_kdf_tls13) = kdf_tls13

-- ===== src/Devices.antt =====
-- list_devices.c: the length of a device list. The chain of `next` pointers is the list itself;
-- `FreeDeviceInfoList` only releases it.
use aaruremote.Common.{ℕ, ◌+◌, ◌%◌, ◌^◌, ◌<◌, ◌≡◌, ap, ◌∙◌, List, [], ◌∷◌, length, arith}

-- The loop of `DeviceInfoListCount` over its `uint16_t` counter.
unfoldable pub count_from {ℓ} : {A : Type ℓ} → ℕ → List A → ℕ
count_from count [] = count
count_from count (d ∷ ds) = count_from ((count + 1) % 2 ^ 16) ds

unfoldable pub device_info_list_count {ℓ} : {A : Type ℓ} → List A → ℕ
unfolding count_from
device_info_list_count start = count_from 0 start

count_from-length {ℓ} :
    {A : Type ℓ} (count : ℕ) (ds : List A)
    → count < 2 ^ 16
    → count_from count ds ≡ (count + length ds) % 2 ^ 16
unfolding count_from
count_from-length count [] h = omega arith
count_from-length count (d ∷ ds) h =
    omega (arith, count_from-length ((count + 1) % 2 ^ 16) ds (omega arith))

-- The count of a device list is its length modulo 2 ^ 16.
pub device_info_list_count-length {ℓ} :
    {A : Type ℓ} (ds : List A) → device_info_list_count ds ≡ length ds % 2 ^ 16
unfolding device_info_list_count
device_info_list_count-length ds =
    count_from-length 0 ds (omega arith) ∙ ap (λ n. n % 2 ^ 16) (omega arith)

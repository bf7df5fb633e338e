-- ===== src/Ssh/Faults.antt =====
-- `classify_ssh_error` of backend/app/ssh_transport.py: the code and the text of a failure.
use lab_gpu_server_monitor.Prelude.{
  ℕ, Bool, ◌||◌, [], ◌∷◌, ◌++◌, if◌then◌else◌, Text, codes, starts_with,
}
use lab_gpu_server_monitor.Prelude.Decimal.{decimal}
use lab_gpu_server_monitor.Ssh.{
  credential_decryption_error, root_ssh_disabled_error, authentication_exception,
  bad_host_key_exception, ssh_exception, gaierror, connection_refused_error, timeout_error,
  os_error, Exception,
}

-- `part in s`
unfoldable pub occurs_in : Text → Text → Bool
occurs_in part [] = starts_with part []
occurs_in part (c ∷ s) = starts_with part (c ∷ s) || occurs_in part s

-- the code and the text that are shown
unfoldable pub classify_ssh_error : ℕ → Exception → Text × Text
classify_ssh_error connect_timeout e =
    let down : Text × Text = (codes "SSH_DOWN", codes "SSH 连接失败") in
    let replaced : Text × Text =
      (codes "SSH_HOSTKEY_CHANGED", codes "SSH 主机密钥发生变化（可能被中间人攻击或服务器重装，需人工确认后重置）") in
    elim e.kind [
      | credential_decryption_error ↦
          (codes "CRED_DECRYPT_FAILED", codes "已保存的 SSH 凭据无法解密（凭据加密密钥不匹配）——请恢复旧密钥或重新录入凭据")
      | root_ssh_disabled_error ↦
          (codes "SSH_ROOT_DISABLED", codes "已禁止 root SSH，请改用专用低权限 gpumon 账号")
      | authentication_exception ↦ (codes "SSH_AUTH_FAILED", codes "SSH 认证失败（检查用户名/密码/密钥）")
      | bad_host_key_exception ↦ replaced
      | k ↦ if occurs_in (codes "HOSTKEY_CHANGED") e.message then replaced else elim k [
        | gaierror ↦ (codes "SSH_DNS_FAILED", codes "DNS 解析失败")
        | connection_refused_error ↦ (codes "SSH_REFUSED", codes "连接被拒绝（sshd 未运行或端口错误）")
        | timeout_error ↦
            (codes "COLLECT_TIMEOUT", codes "连接超时（" ++ (decimal connect_timeout ++ codes "s）"))
        | ssh_exception ↦ (codes "SSH_DOWN", codes "SSH 协议错误")
        | os_error ↦ (codes "SSH_DOWN", codes "网络连接失败")
        | _ ↦ down
      ]
    ]
